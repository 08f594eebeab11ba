-- ===== src/Tests/Server.antt =====
-- The server's reactor at small inputs.
use protosocket.Prelude.{
  Poll, ready, pending, done, ℕ, suc, ◌≡◌, ◌≢◌, refl, sym, ap, Bool, true, false, List, [], ◌∷◌,
  ◌++◌, length, Option, none, some, arith, length-append,
}
use protosocket.Prelude.Assoc.{lookup}
use protosocket.Codec.{Codec, Encoder, refused, invalid_buffer}
use protosocket.SendBudget.{SendBudget, Spends}
use protosocket.Rpc.Message.{Message, ProtosocketControlCode, normal, cancel, end}
use protosocket.Rpc.RpcStream
use protosocket.Rpc.RpcStream.{
  Heap, mark_aborted, RpcStream, RpcStreamEvent, complete, item, finished, cancelled, Service,
  unary, streaming,
}
use protosocket.Rpc.RpcStream.Protocol.{many, Speaks, polls, aborts, run, run-Speaks}
use protosocket.Rpc.ServerTraits
use protosocket.Rpc.ServerTraits.{RpcKind, ConnectionService}
use protosocket.Rpc.RpcSubmitter.{Pool, RpcSubmitter, on_inbound_message, poll_outbound_many}
use protosocket.Rpc.RpcSubmitter.Turns.{IsPool, poll_outbound_many-Spends}
use protosocket.Rpc.RpcSubmitter.Handles.{IsTracked, on_inbound_message-cancelled}
use protosocket.Buffers.OwnedBuffer
use protosocket.Buffers.OwnedBuffer.{OwnedBuffer, owned_buf}
use protosocket.Buffers.Contents.{owned_buf-IsContiguous}
use protosocket.Connection.State.{Connection}
use protosocket.Connection.Receive.Consumes.{IsHonest}
use protosocket.Connection.Driving.{IsLive, Drives}
use protosocket.Rpc.Hosting.{submitter_reactor, poll_hosting-Drives}
use protosocket.Tests.Peer.{
  Peer, peer, got, quotas_left, peer-IsWritable, peer-IsFinite, peer-IsDuplex,
}

-- A message is its id, its code and a payload.
abbrev Note : Type 0
Note = ℕ × ProtosocketControlCode × ℕ

abbrev note_message : Message Note
note_message = record {
  message_id = λ m. m.0;
  control_code = λ m. m.1;
  set_message_id = λ m id. (id, m.1, m.2);
  cancelled = λ id. (id, cancel, 0);
  ended = λ id. (id, end, 0);
}

-- A future that is ready at once, and a stream of a list.
abbrev step_unary : ℕ → ℕ × Poll Note
step_unary n = (n, ready (0, normal, n))

abbrev step_stream : List ℕ → List ℕ × Poll (Option Note)
step_stream [] = ([], ready none)
step_stream (n ∷ ns) = (ns, ready (some (0, normal, n)))

abbrev service : Service ℕ (List ℕ) Note
service = record { poll_unary = step_unary; poll_stream = step_stream }

-- The rpcs in a row, polled from the front.
abbrev given :
    Heap
    → List (RpcStream ℕ (List ℕ))
    → RpcStream ℕ (List ℕ)
    → Poll (Option (ℕ × RpcStreamEvent Note))
    → Heap
      × List (RpcStream ℕ (List ℕ))
      × Poll (Option (Option (ℕ × RpcStreamEvent Note) × RpcStream ℕ (List ℕ)))
given h rs r pending = (h, r ∷ rs, pending)
given h rs r (ready o) = (h, rs, ready (some (o, r)))

abbrev row_next :
    Heap
    → List (RpcStream ℕ (List ℕ))
    → Heap
      × List (RpcStream ℕ (List ℕ))
      × Poll (Option (Option (ℕ × RpcStreamEvent Note) × RpcStream ℕ (List ℕ)))
row_next h [] = (h, [], ready none)
row_next h (r ∷ rs) = let (h', r', p) = RpcStream.poll_next service h r in given h' rs r' p

abbrev row : Pool (List (RpcStream ℕ (List ℕ))) ℕ (List ℕ) Note
row = record { push = λ rs r. rs ++ r ∷ []; poll_next = row_next }

given_size :
    (h h' : Heap) (rs rs' : List (RpcStream ℕ (List ℕ))) (r : RpcStream ℕ (List ℕ))
    (p : Poll (Option (ℕ × RpcStreamEvent Note)))
    (out : Option (ℕ × RpcStreamEvent Note) × RpcStream ℕ (List ℕ))
    → given h rs r p ≡ (h', rs', ready (some out))
    → suc (length rs') ≡ suc (length rs)
given_size h h' rs rs' r pending out e = absurd (ground (arith, e))
given_size h h' rs rs' r (ready o) out e = ap (λ x. suc (length (x.1))) (sym e)

row-IsPool : IsPool row length
row-IsPool = record {
  push_size = λ rs r. omega (arith, length-append rs (r ∷ []));
  given_size = sized;
}
  where
    sized :
        (h h' : Heap) (rs rs' : List (RpcStream ℕ (List ℕ)))
        (out : Option (ℕ × RpcStreamEvent Note) × RpcStream ℕ (List ℕ))
        → row_next h rs ≡ (h', rs', ready (some out))
        → suc (length rs') ≡ length rs
    sized h h' [] rs' out e = absurd (ground (arith, e))
    sized h h' (r ∷ rs) rs' out e =
        given_size (RpcStream.poll_next service h r).0 h' rs rs' (RpcStream.poll_next service h r).1
          (RpcStream.poll_next service h r).2 out e

-- A request starts a stream that gives its payload twice.
abbrev server : ConnectionService (Unit {0}) ℕ (List ℕ) Note
server = record {
  new_rpc = λ c m. (c, ServerTraits.streaming (m.2 ∷ m.2 ∷ []));
  poll = λ c. (c, false);
}

abbrev plain : Encoder (Unit {0}) Note Note
plain = record { encode = λ d m. (d, m); return_buffer = λ d b. d }

abbrev streaming_rpc : RpcStream ℕ (List ℕ)
streaming_rpc = record { id = 7; shared = 0; kind = streaming (1 ∷ 2 ∷ []) }

abbrev cells : Heap
cells = record { aborted = false; waker = [] } ∷ record { aborted = false; waker = [] } ∷ []

-- Two rpcs in the pool, and one that was rejected.
abbrev hosting : RpcSubmitter (Unit {0}) (List (RpcStream ℕ (List ℕ)))
hosting = record {
  connection_server = tt;
  aborts = (7, 0) ∷ (8, 1) ∷ [];
  rejections = 9 ∷ [];
  rpcs = streaming_rpc ∷ record { id = 8; shared = 1; kind = unary 5 } ∷ [];
  cells = cells;
}

hosting-IsTracked : IsTracked hosting
hosting-IsTracked = record { in_heap = λ id a e. ground (arith, e) }

abbrev budget : SendBudget (Unit {0}) Note
budget = record { encoder = tt; send_buffer = []; remaining = 3 }

run-Speaks_example :
    Speaks 7 many (run service (polls ∷ polls ∷ aborts ∷ polls ∷ polls ∷ []) cells streaming_rpc)
run-Speaks_example =
    run-Speaks service (polls ∷ polls ∷ aborts ∷ polls ∷ polls ∷ []) cells streaming_rpc

poll_outbound_many-Spends_example :
    (r' : RpcSubmitter (Unit {0}) (List (RpcStream ℕ (List ℕ)))) × (b' : SendBudget (Unit {0}) Note)
    × (emitted : Bool) × (poll_outbound_many service row server note_message note_message plain 9
          hosting budget
        ≡ done (r', b', emitted))
    × Spends plain budget b'
poll_outbound_many-Spends_example =
    poll_outbound_many-Spends service row server note_message note_message plain length 9 hosting
      budget row-IsPool (omega arith)

on_inbound_message-cancelled_example :
    let r' =
      (on_inbound_message service row server note_message note_message plain hosting
        (7, cancel, 0)).0 in
    ((RpcStream.poll_next service r'.cells streaming_rpc).2 ≡ ready (some (7, cancelled)))
    × (lookup r'.aborts 7 ≡ none)
    × ((id : ℕ) → 7 ≢ id → lookup r'.aborts id ≡ lookup hosting.aborts id)
on_inbound_message-cancelled_example =
    on_inbound_message-cancelled service row server note_message note_message plain hosting
      (7, cancel, 0) streaming_rpc hosting-IsTracked refl refl (λ e. absurd (ground (arith, e)))

-- A codec that writes a note as its id and its payload, and reads none.
abbrev writes_notes : Codec (Unit {0}) Note Note OwnedBuffer
writes_notes = record {
  decoder = record { decode = λ d bytes. (d, refused invalid_buffer) };
  encoder = record {
    encode = λ d m. (d, record { buffer = m.0 ∷ m.2 ∷ []; cursor = 0 });
    return_buffer = λ d b. d;
  };
}

writes_notes-IsHonest : (max : ℕ) → IsHonest writes_notes max
writes_notes-IsHonest max = record {
  takes = λ d d' bytes n m e. absurd (ground (arith, e));
  skips = λ d d' bytes n e. absurd (ground (arith, e));
  asks = λ d d' bytes n e. absurd (ground (arith, e));
}

-- The connection of those rpcs, to a peer that takes a byte and then four.
abbrev hosting_connection :
    Connection Peer
      (Unit {0})
      (RpcSubmitter (Unit {0}) (List (RpcStream ℕ (List ℕ))))
      OwnedBuffer
      Note
hosting_connection = record {
  stream = ([], 1 ∷ 4 ∷ []);
  outbound_messages = record {
    cursor = 0;
    buffer = [];
    shared = record {
      chutes = record { queue = []; clean = true } ∷ [];
      waker = [];
      senders = 0;
      chute_clock = 1;
      channel_size = 0;
      capacity = 8;
      dead = false;
    };
  };
  send_buffer = [];
  receive_buffer_unread_index = 0;
  receive_buffer = [];
  max_buffer_length = 16;
  max_queued_send_messages = 3;
  buffer_allocation_increment = 8;
  codec = tt;
  reactor = hosting;
}

hosting_connection-IsLive : IsLive hosting_connection
hosting_connection-IsLive = record {
  ready = omega arith;
  valid = ground arith;
  queued = omega arith;
  word = omega arith;
}

poll_hosting-Drives_example :
    Drives peer owned_buf writes_notes
      (submitter_reactor service row server note_message note_message writes_notes length)
      24
      4
      OwnedBuffer.chunk
      owned_buf-IsContiguous
      got
      quotas_left
      peer-IsWritable
      peer-IsDuplex
      hosting_connection
poll_hosting-Drives_example =
    poll_hosting-Drives service row server note_message note_message writes_notes length row-IsPool
      peer owned_buf OwnedBuffer.chunk owned_buf-IsContiguous got quotas_left peer-IsWritable
      peer-IsDuplex 24 4 (λ s. 0) hosting_connection peer-IsFinite (writes_notes-IsHonest 16)
      hosting_connection-IsLive (omega arith) (omega arith) (omega arith)
