-- ===== src/Tests/Spillway.antt =====
-- spillway at small channels.
use protosocket.Prelude.{
  ready, ℕ, zero, suc, ◌-◌, ◌/◌, ◌≡◌, refl, true, false, if◌then◌else◌, ◌==◌, [], ◌∷◌, ◌++◌, none,
  some, arith,
}
use mathlib.Core.Option
use protosocket.Spillway.Shared
use protosocket.Spillway.Shared.{Shared, register, wake, Sent}
use protosocket.Spillway.Receiver.{Receiver, poll_next, poll_batch}
use protosocket.Spillway.Receiver.Batches.{Batches, poll_batch-Batches}
use protosocket.Spillway.Receiver.Validity.{IsValid, Answers, poll_next-Answers}
use protosocket.Spillway.Sending.{Sends, send_many-Sends}
use protosocket.Spillway.Fifo.{
  IsSorted, TakesFronts, poll_next-TakesFronts, send_many-queue_of, queue_of,
}
use protosocket.Spillway.EmptyBatch.{empty_batch_panics}

-- A bounded channel of two chutes with three values in it.
abbrev holding : Receiver ℕ
holding = record {
  cursor = 1;
  buffer = [];
  shared = record {
    chutes =
        record { queue = 10 ∷ 11 ∷ []; clean = false }
        ∷ record { queue = 20 ∷ []; clean = false }
        ∷ [];
    waker = wake ∷ register ∷ [];
    senders = 2;
    chute_clock = 2;
    channel_size = 3;
    capacity = 8;
    dead = false;
  };
}

-- The chute that a value of `holding` was sent through.
abbrev tens : ℕ → ℕ
tens v = v / 10 - 1

-- A channel of two chutes with nothing in it.
abbrev idle : Receiver ℕ
idle = record {
  cursor = 0;
  buffer = [];
  shared = record {
    chutes = record { queue = []; clean = true } ∷ record { queue = []; clean = true } ∷ [];
    waker = [];
    senders = 1;
    chute_clock = 1;
    channel_size = 0;
    capacity = 8;
    dead = false;
  };
}

holding-IsValid : IsValid holding
holding-IsValid = ground arith

idle-IsValid : IsValid idle
idle-IsValid = ground arith

holding-IsSorted : IsSorted tens holding
holding-IsSorted zero = (refl, (refl, tt))
holding-IsSorted (suc zero) = (refl, tt)
holding-IsSorted (suc (suc k)) = tt

poll_next-Answers_example : Answers holding (poll_next holding)
poll_next-Answers_example = poll_next-Answers holding holding-IsValid

poll_next-TakesFronts_example : TakesFronts tens holding (poll_next holding)
poll_next-TakesFronts_example = poll_next-TakesFronts tens holding holding-IsValid holding-IsSorted

send_many-Sends_example :
    Sends holding 1 (21 ∷ 22 ∷ []) (21 ∷ 22 ∷ []) (Shared.send_many holding.shared 1 (21 ∷ 22 ∷ []))
send_many-Sends_example =
    send_many-Sends holding 1 (21 ∷ 22 ∷ []) refl (omega arith) (λ e. cc) (omega arith)
      holding-IsValid

-- `holding` once the batch 21, 22 is in its second chute.
abbrev fuller : Shared ℕ
fuller = record (holding.shared) {
  chutes =
      record { queue = 10 ∷ 11 ∷ []; clean = false }
      ∷ record { queue = 20 ∷ 21 ∷ 22 ∷ []; clean = false }
      ∷ [];
  channel_size = 5;
}

send_many-fuller : Shared.send_many holding.shared 1 (21 ∷ 22 ∷ []) ≡ some (none, fuller)
unfolding Shared.send_many
send_many-fuller = refl

send_many-queue_of_example :
    IsSorted tens (record holding { shared = fuller })
    × ((k : ℕ)
        → queue_of tens (record holding { shared = fuller }) k
          ≡ (if 1 == k then queue_of tens holding k ++ 21 ∷ 22 ∷ [] else queue_of tens holding k))
send_many-queue_of_example =
    send_many-queue_of tens holding 1 (21 ∷ 22 ∷ []) fuller refl (omega arith) (λ e. cc)
      (omega arith) (refl, (refl, tt)) holding-IsValid holding-IsSorted send_many-fuller

empty_batch_panics_example :
    (s' : Shared ℕ) × (Shared.send_many idle.shared 0 [] ≡ some (none, s'))
    × (poll_next (record idle { shared = s' }) ≡ none)
empty_batch_panics_example = empty_batch_panics idle 0 refl refl (omega arith) idle-IsValid

-- The cursor stands at the second chute, so its value comes first.
holding_runs : Option.map (λ x. x.0) (poll_next holding) ≡ some (ready (some 20))
unfolding poll_next
holding_runs = refl

poll_batch-Batches_example : Batches holding (poll_batch holding)
poll_batch-Batches_example = poll_batch-Batches holding holding-IsValid
