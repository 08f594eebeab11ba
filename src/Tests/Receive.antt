-- ===== src/Tests/Receive.antt =====
-- The receiving half of a connection at small inputs.
use protosocket.Prelude.{
  done, panic, starved, ℕ, ◌≡◌, refl, true, false, List, [], ◌∷◌, length, arith,
}
use protosocket.Codec.{interrupted, skip_message}
use protosocket.Reactor.{finished, failed, waiting}
use protosocket.Spillway.Receiver.{Receiver}
use protosocket.Connection.State.{Connection, pending}
use protosocket.Connection.Receive.{read_inbound_messages_and_react, poll_receive}
use protosocket.Connection.Receive.Cursor.{IsValid}
use protosocket.Connection.Receive.Totality.{IsReady}
use protosocket.Connection.Receive.Reaction.{Reaction}
use protosocket.Connection.Receive.Decode.{read_inbound_messages_and_react-Reaction}
use protosocket.Connection.Receive.Polling.{Ends, poll_receive-Ends}
use protosocket.Connection.Receive.Faults.{IsFull, poll_receive_spins, overrun_panics}
use protosocket.Tests.World.{
  Script, scripted, framed, skipping, greedy, collecting, framed-IsHonest, scripted-IsFinite,
}

abbrev TestConnection : Type 0
TestConnection = Connection Script (Unit {0}) (List (List ℕ)) (List ℕ) (List ℕ)

abbrev no_messages : Receiver (List ℕ)
no_messages = record {
  cursor = 0;
  buffer = [];
  shared = record {
    chutes = record { queue = []; clean = true } ∷ [];
    waker = [];
    senders = 1;
    chute_clock = 1;
    channel_size = 0;
    capacity = 8;
    dead = false;
  };
}

-- Fresh, with a script of two and a half frames in two reads.
abbrev fresh : TestConnection
fresh = record {
  stream =
      finished (1 ∷ 7 ∷ 2 ∷ 8 ∷ []) ∷ failed interrupted ∷ finished (9 ∷ 3 ∷ 1 ∷ []) ∷ waiting ∷ [];
  outbound_messages = no_messages;
  send_buffer = [];
  receive_buffer_unread_index = 0;
  receive_buffer = [];
  max_buffer_length = 16;
  max_queued_send_messages = 4;
  buffer_allocation_increment = 8;
  codec = tt;
  reactor = [];
}

-- One frame and a part of the next are in the buffer.
abbrev halfway : TestConnection
halfway = record fresh {
  receive_buffer = 1 ∷ 7 ∷ 2 ∷ 8 ∷ 0 ∷ 0 ∷ [];
  receive_buffer_unread_index = 4;
}

-- The buffer is at its limit.
abbrev full_buffer : TestConnection
full_buffer = record fresh {
  receive_buffer = 1 ∷ 2 ∷ 3 ∷ 4 ∷ [];
  receive_buffer_unread_index = 4;
  max_buffer_length = 4;
}

halfway-IsValid : IsValid halfway
halfway-IsValid = record { in_buffer = omega arith; allocated = omega arith }

fresh-IsReady : IsReady fresh
fresh-IsReady = omega arith

full_buffer-IsFull : IsFull full_buffer
full_buffer-IsFull = omega arith

-- The complete frame goes to the reactor, and the part of the next moves to the front.
halfway_runs :
    read_inbound_messages_and_react scripted framed collecting 5 halfway
    ≡ done (
      pending,
      record halfway {
        receive_buffer = 2 ∷ 8 ∷ 2 ∷ 8 ∷ 0 ∷ 0 ∷ [];
        receive_buffer_unread_index = 2;
        reactor = (7 ∷ []) ∷ [];
      },
    )
unfolding read_inbound_messages_and_react
halfway_runs = refl

read_inbound_messages_and_react-Reaction_example :
    Reaction scripted framed collecting halfway 0
      (read_inbound_messages_and_react scripted framed collecting 5 halfway)
read_inbound_messages_and_react-Reaction_example =
    read_inbound_messages_and_react-Reaction scripted framed collecting 5 halfway halfway-IsValid
      (framed-IsHonest 16) (omega arith)

poll_receive-Ends_example :
    Ends scripted framed collecting 24 fresh (poll_receive scripted framed collecting 24 5 fresh)
poll_receive-Ends_example =
    poll_receive-Ends scripted framed collecting 24 length 5 fresh scripted-IsFinite
      (framed-IsHonest 16) fresh-IsReady (omega arith) (omega arith)

poll_receive_spins_example : poll_receive scripted skipping collecting 5 1000 full_buffer ≡ starved
poll_receive_spins_example =
    poll_receive_spins scripted skipping collecting full_buffer 4 1000 (skip_message 100)
      full_buffer-IsFull (omega arith) refl

overrun_panics_example :
    read_inbound_messages_and_react scripted greedy collecting 5 halfway ≡ panic
overrun_panics_example =
    overrun_panics scripted greedy collecting halfway 3 100 tt _ _ halfway-IsValid (omega arith)
      (omega arith) (omega arith) refl refl
