-- ===== src/Tests/Completions.antt =====
-- The completions of a client at small inputs.
use protosocket.Prelude.{ℕ, ◌≡◌, inl, refl, true, false, [], ◌∷◌, some, arith}
use protosocket.Prelude.Word.{u64_max}
use protosocket.Spillway.Shared.{Shared}
use protosocket.Spillway.Sender
use protosocket.Spillway.Receiver.{Receiver}
use protosocket.Spillway.Receiver.Validity.{IsValid}
use protosocket.Spillway.Sending.{Delivers}
use protosocket.Rpc.CompletionReactor.{RpcNotification, cancel_rpc}
use protosocket.Rpc.Completions.{CompletionGuard, drop_guard, StreamingCompletion}
use protosocket.Rpc.Completions.Outcomes.{IsGuarded, Ends, polled-Ends, drop_guard-Delivers}

abbrev open_guard : CompletionGuard
open_guard = record { closed = false; message_id = 4; raw_submission_queue = record { chute = 0 } }

-- Two responses wait, and the reactor has dropped its end.
abbrev answered : StreamingCompletion ℕ
answered = record {
  completion = record {
    cursor = 0;
    buffer = [];
    shared = record {
      chutes = record { queue = 7 ∷ 8 ∷ []; clean = false } ∷ [];
      waker = [];
      senders = 0;
      chute_clock = 1;
      channel_size = 0;
      capacity = u64_max;
      dead = false;
    };
  };
  completion_guard = open_guard;
  closed = false;
}

-- The queue of an idle client.
abbrev submissions : Receiver (RpcNotification ℕ)
submissions = record {
  cursor = 0;
  buffer = [];
  shared = record {
    chutes = record { queue = []; clean = true } ∷ [];
    waker = [];
    senders = 2;
    chute_clock = 2;
    channel_size = 0;
    capacity = u64_max;
    dead = false;
  };
}

submissions-IsValid : IsValid submissions
submissions-IsValid = ground arith

answered-IsGuarded : IsGuarded answered
answered-IsGuarded = record { valid = ground arith; guarded = refl }

polled-Ends_example : Ends 5 answered
polled-Ends_example = polled-Ends 5 answered answered-IsGuarded

drop_guard-Delivers_example :
    (s' : Shared (RpcNotification ℕ)) × (drop_guard submissions.shared open_guard
      ≡ some (Sender.drop_last (open_guard.raw_submission_queue) s'))
    × Delivers submissions 0 (cancel_rpc 4 ∷ []) s'
drop_guard-Delivers_example =
    drop_guard-Delivers submissions open_guard submissions-IsValid refl (omega arith) (omega arith)
      (inl refl)
