-- ===== src/Tests/Driving.antt =====
-- A whole connection at small inputs: bytes come in, and messages go out, in one poll.
use protosocket.Prelude.{
  ready, Run, done, ℕ, ◌+◌, ◌≡◌, refl, ap, Bool, false, List, [], ◌∷◌, length, Option, some, none,
  arith,
}
use protosocket.Codec.{Codec, go_on}
use protosocket.Reactor.{MessageReactor, Stream, finished}
use protosocket.Buffers.OwnedBuffer.{OwnedBuffer, owned_buf}
use protosocket.Buffers.OwnedBuffer
use protosocket.Buffers.Contents.{owned_buf-IsContiguous}
use protosocket.Connection.State.{Connection}
use protosocket.Connection.Receive.Consumes.{IsHonest}
use protosocket.Connection.Receive.Totality.{IsFinite}
use protosocket.Spillway.Receiver.{poll_next}
use protosocket.Connection.Receive.{
  poll_receive, poll_read_inbound, read_inbound_messages_and_react,
}
use protosocket.Connection.Send.{
  poll, poll_writev_buffers, poll_serialize_outbound_messages, enqueue, write_or_flush, write_once,
  gather, advance_send_buffers, flush_once, on_flushed,
}
use protosocket.Connection.Send.Draining.{IsThrifty}
use protosocket.Connection.Send.Attempts.{Wrote, IsWritable}
use protosocket.Connection.Driving.{IsDuplex, IsLive, Drives, poll-Drives}
use protosocket.SendBudget.{kept}
use protosocket.Tests.World.{Script, scripted, framed, framed-IsHonest, scripted-IsFinite}
use protosocket.Tests.Peer.{Peer, peer, got, quotas_left}

-- A script to read, and a peer to write to.
abbrev duplex : Stream (Script × Peer)
duplex = record {
  poll_read = λ s room. let (s', out) = scripted.poll_read s.0 room in ((s', s.1), out);
  poll_write_vectored =
      λ s slices. let (p, out) = peer.poll_write_vectored s.1 slices in ((s.0, p), out);
  poll_flush = λ s. (s, finished tt);
}

duplex-IsFinite : IsFinite duplex (λ s. length s.0)
duplex-IsFinite = record {
  fits = λ s s' room bytes e. scripted-IsFinite.fits s.0 s'.0 room bytes (ap (λ o. (o.0.0, o.1)) e);
  reads =
      λ s s' room bytes e. scripted-IsFinite.reads s.0 s'.0 room bytes (ap (λ o. (o.0.0, o.1)) e);
  interrupts = λ s s' room e. scripted-IsFinite.interrupts s.0 s'.0 room (ap (λ o. (o.0.0, o.1)) e);
}

duplex-IsWritable : IsWritable duplex (λ s. got s.1) (λ s. quotas_left s.1)
duplex-IsWritable = record { writes = λ s. wrote s.0 s.1; flushes = λ s. refl }
  where
    wrote :
        (x : Script) (p : Peer) (slices : List (List ℕ))
        → Wrote
            (λ (s : Script × Peer). got s.1)
            (λ s. quotas_left s.1)
            (x, p)
            slices
            (duplex.poll_write_vectored (x, p) slices)
    wrote x (g, []) slices = refl
    wrote x (g, q ∷ qs) slices = (omega arith, refl, λ _. omega arith)

duplex-IsDuplex : IsDuplex duplex (λ s. got s.1) (λ s. quotas_left s.1)
duplex-IsDuplex = record { silent = λ s room. refl; fewer = λ s room. omega arith }

-- Frames both ways: a payload behind one byte with its length.
abbrev both_ways : Codec (Unit {0}) (List ℕ) (List ℕ) OwnedBuffer
both_ways = record {
  decoder = framed.decoder;
  encoder = record {
    encode = λ d payload. (d, record { buffer = length payload ∷ payload; cursor = 0 });
    return_buffer = λ d _. d;
  };
}

both_ways-IsHonest : (max : ℕ) → IsHonest both_ways max
both_ways-IsHonest max =
    let h = framed-IsHonest max in record { takes = h.takes; skips = h.skips; asks = h.asks }

-- A reactor that counts the messages.
abbrev counting : MessageReactor ℕ (Unit {0}) OwnedBuffer (List ℕ) (List ℕ) (List ℕ)
counting = record {
  on_inbound_message = λ r m. (r + 1, go_on);
  poll = λ r. (r, false);
  on_outbound_message = λ r l. (r, l);
  poll_outbound_many = λ r b. (r, b, ready none);
}

counting-IsThrifty : IsThrifty duplex owned_buf both_ways counting
counting-IsThrifty r b = kept

-- One and a half frames come in, and one message of the queue goes out.
abbrev talking : Connection (Script × Peer) (Unit {0}) ℕ OwnedBuffer (List ℕ)
talking = record {
  stream = (finished (1 ∷ 7 ∷ 2 ∷ 8 ∷ []) ∷ [], ([], 2 ∷ 2 ∷ []));
  outbound_messages = record {
    cursor = 0;
    buffer = [];
    shared = record {
      chutes = record { queue = (5 ∷ 6 ∷ []) ∷ []; clean = false } ∷ [];
      waker = [];
      senders = 1;
      chute_clock = 1;
      channel_size = 1;
      capacity = 8;
      dead = false;
    };
  };
  send_buffer = [];
  receive_buffer_unread_index = 0;
  receive_buffer = [];
  max_buffer_length = 16;
  max_queued_send_messages = 4;
  buffer_allocation_increment = 8;
  codec = tt;
  reactor = 0;
}

talking-IsLive : IsLive talking
talking-IsLive = record {
  ready = omega arith;
  valid = ground arith;
  queued = omega arith;
  word = omega arith;
}

abbrev outcome :
    Run (Bool × Connection (Script × Peer) (Unit {0}) ℕ OwnedBuffer (List ℕ))
    → Option (Bool × ℕ × List ℕ)
outcome (done (over, c)) = some (over, c.reactor, got c.stream.1)
outcome _ = none

-- The one frame is counted, the one message is written, and the poll parks.
talking_polls :
    outcome (poll duplex owned_buf both_ways counting 24 5 talking)
    ≡ some (false, 1, 2 ∷ 5 ∷ 6 ∷ [])
unfolding poll poll_receive poll_read_inbound read_inbound_messages_and_react poll_writev_buffers
    poll_serialize_outbound_messages poll_next enqueue write_or_flush write_once gather owned_buf
    OwnedBuffer.remaining OwnedBuffer.chunk OwnedBuffer.advance advance_send_buffers flush_once
    on_flushed
talking_polls = refl

poll-Drives_example :
    Drives duplex owned_buf both_ways counting 24 5 OwnedBuffer.chunk owned_buf-IsContiguous
      (λ s. got s.1)
      (λ s. quotas_left s.1)
      duplex-IsWritable
      duplex-IsDuplex
      talking
poll-Drives_example =
    poll-Drives duplex owned_buf both_ways counting 24 5 OwnedBuffer.chunk owned_buf-IsContiguous
      (λ s. got s.1) (λ s. quotas_left s.1) duplex-IsWritable duplex-IsDuplex counting-IsThrifty
      (λ s. length s.0) talking duplex-IsFinite (both_ways-IsHonest 16) talking-IsLive (omega arith)
      (omega arith) (omega arith)
