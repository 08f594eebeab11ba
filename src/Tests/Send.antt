-- ===== src/Tests/Send.antt =====
-- The sending half of a connection at small inputs.
use protosocket.Prelude.{
  ready, Run, done, ℕ, ◌≡◌, refl, true, false, List, [], ◌∷◌, ◌++◌, length, Option, none, some,
  arith,
}
use protosocket.Codec.{Codec, refused, invalid_buffer, go_on}
use protosocket.SendBudget
use protosocket.SendBudget.{SendBudget, Spends, kept}
use protosocket.Reactor.{MessageReactor}
use protosocket.Spillway.Receiver.{poll_next}
use protosocket.Spillway.Receiver.Validity
use protosocket.Connection.State.{Connection}
use protosocket.Connection.Send.{
  Written, ok, poll_serialize_outbound_messages, enqueue, write_once, gather, advance_send_buffers,
  flush_once, on_flushed, write_or_flush, poll_writev_buffers,
}
use protosocket.Connection.Send.Draining.{IsThrifty}
use protosocket.Connection.Send.Serialize.{Serializes, poll_serialize_outbound_messages-Serializes}
use protosocket.Connection.Send.Writing.{Writes, poll_writev_buffers-Writes}
use protosocket.Connection.Send.Closing.{IsQuiet, IsExhausted, closing_drops}
use protosocket.Buffers.Reusable
use protosocket.Buffers.Reusable.{Reusable, reusable_buf}
use protosocket.Buffers.Contents.{reusable_buf-IsContiguous}
use protosocket.Tests.Peer.{Peer, peer, got, quotas_left, peer-IsWritable}
use protosocket.Buffers.PooledEncoder
use protosocket.Buffers.PooledEncoder.{PooledEncoder, Serialize, pooled}

-- A frame is its payload behind one byte with the length of the payload.
abbrev framing : Serialize (Unit {0}) (List ℕ)
framing = record { serialize_into_buffer = λ z m buffer. (z, buffer ++ length m ∷ m) }

abbrev sender_codec : Codec (PooledEncoder (Unit {0})) (List ℕ) (List ℕ) Reusable
sender_codec = record {
  decoder = record { decode = λ d bytes. (d, refused invalid_buffer) };
  encoder = pooled framing;
}

-- A reactor that has nothing to say.
abbrev silent :
    MessageReactor (Unit {0}) (PooledEncoder (Unit {0})) Reusable (List ℕ) (List ℕ) (List ℕ)
silent = record {
  on_inbound_message = λ r m. (r, go_on);
  poll = λ r. (r, false);
  on_outbound_message = λ r l. (r, l);
  poll_outbound_many = λ r b. (r, b, ready none);
}

silent-IsThrifty : IsThrifty peer reusable_buf sender_codec silent
silent-IsThrifty r b = kept

abbrev TestConnection : Type 0
TestConnection = Connection Peer (PooledEncoder (Unit {0})) (Unit {0}) Reusable (List ℕ)

-- Two messages wait in the queue, a buffer is half written, and the peer takes three bytes at a time.
abbrev busy : TestConnection
busy = record {
  stream = (1 ∷ [], 3 ∷ 3 ∷ 3 ∷ []);
  outbound_messages = record {
    cursor = 0;
    buffer = [];
    shared = record {
      chutes = record { queue = (7 ∷ []) ∷ (8 ∷ 9 ∷ []) ∷ []; clean = false } ∷ [];
      waker = [];
      senders = 1;
      chute_clock = 1;
      channel_size = 2;
      capacity = 8;
      dead = false;
    };
  };
  send_buffer = record { inner = 1 ∷ 6 ∷ []; cursor = 1 } ∷ [];
  receive_buffer_unread_index = 0;
  receive_buffer = [];
  max_buffer_length = 16;
  max_queued_send_messages = 4;
  buffer_allocation_increment = 8;
  codec = record { serializer = tt; buffer_pool = []; max_pooled = 1 };
  reactor = tt;
}

-- The queue is empty and its senders are gone; the buffer is still half written.
abbrev parting : TestConnection
parting = record busy {
  outbound_messages = record (busy.outbound_messages) {
    shared = record (busy.outbound_messages.shared) {
      chutes = record { queue = []; clean = true } ∷ [];
      senders = 0;
      channel_size = 0;
    };
  };
}

busy-IsValid : Validity.IsValid busy.outbound_messages
busy-IsValid = ground arith

parting-IsQuiet : IsQuiet peer reusable_buf sender_codec silent parting
parting-IsQuiet = record { valid = ground arith; nothing = refl; nobody = refl }

parting-IsExhausted : IsExhausted peer reusable_buf sender_codec silent parting
unfolding SendBudget.new
parting-IsExhausted n = (tt, parting.codec, n, refl)

poll_serialize_outbound_messages-Serializes_example :
    Serializes peer reusable_buf sender_codec silent busy
poll_serialize_outbound_messages-Serializes_example =
    poll_serialize_outbound_messages-Serializes peer reusable_buf sender_codec silent
      silent-IsThrifty busy busy-IsValid (omega arith) (omega arith)

poll_writev_buffers-Writes_example :
    Writes peer reusable_buf sender_codec silent Reusable.chunk reusable_buf-IsContiguous got
      quotas_left peer-IsWritable 4 busy
poll_writev_buffers-Writes_example =
    poll_writev_buffers-Writes peer reusable_buf sender_codec silent Reusable.chunk
      reusable_buf-IsContiguous got quotas_left peer-IsWritable silent-IsThrifty 4 busy busy-IsValid
      (omega arith) (omega arith) (omega arith)

abbrev stream_of : Run (Written × TestConnection) → Option Peer
stream_of (done (w, c)) = some c.stream
stream_of _ = none

-- All six bytes go out in two writes, and the third waits for nothing.
busy_runs :
    stream_of (poll_writev_buffers peer reusable_buf sender_codec silent 5 busy)
    ≡ some (1 ∷ 6 ∷ 1 ∷ 7 ∷ 2 ∷ 8 ∷ 9 ∷ [], 3 ∷ [])
unfolding poll_writev_buffers poll_serialize_outbound_messages poll_next enqueue write_or_flush
    write_once gather reusable_buf Reusable.chunks_vectored pooled PooledEncoder.encode
    advance_send_buffers Reusable.remaining flush_once on_flushed
busy_runs = refl

closing_drops_example :
    (c' : TestConnection) × (poll_writev_buffers peer reusable_buf sender_codec silent 2 parting
      ≡ done (ok true, c'))
    × (c'.send_buffer ≡ parting.send_buffer)
    × (c'.stream ≡ parting.stream)
closing_drops_example =
    closing_drops peer reusable_buf sender_codec silent 1 parting parting-IsQuiet
      parting-IsExhausted (omega arith) (omega arith)
