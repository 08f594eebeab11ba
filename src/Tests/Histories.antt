-- ===== src/Tests/Histories.antt =====
-- A channel that is used one operation at a time.
use protosocket.Prelude.{
  ready, pending, ℕ, ◌≡◌, refl, inl, inr, true, false, [], ◌∷◌, some, none, arith,
}
use protosocket.Spillway.Shared.{register, wake}
use protosocket.Spillway.Sender
use protosocket.Spillway.Sender.{Sender}
use protosocket.Spillway.Receiver.{Receiver, channel_with_concurrency, poll_next}
use protosocket.Spillway.Receiver.Validity.{IsValid}
use protosocket.Spillway.Race.{resting, Reach}
use protosocket.Spillway.Race.Whole.{whole}
use protosocket.Spillway.Race.Histories.{History, made, polled, batched, History-Reach}
use protosocket.Prelude.Word.{u64_max}

-- The receiver polls, a batch is sent and wakes it, and it polls again.
abbrev waiting : Receiver ℕ
waiting = record {
  cursor = 0;
  buffer = [];
  shared = record {
    chutes = record { queue = []; clean = true } ∷ record { queue = []; clean = true } ∷ [];
    waker = register ∷ [];
    senders = 1;
    chute_clock = 1;
    channel_size = 0;
    capacity = u64_max;
    dead = false;
  };
}

abbrev woken : Receiver ℕ
woken = record waiting {
  shared = record (waiting.shared) {
    chutes =
        record { queue = 4 ∷ 5 ∷ []; clean = false } ∷ record { queue = []; clean = true } ∷ [];
    waker = wake ∷ register ∷ [];
  };
}

abbrev answered : Receiver ℕ
answered = record {
  cursor = 1;
  buffer = 5 ∷ [];
  shared = record (waiting.shared) { waker = wake ∷ register ∷ [] };
}

abbrev me : Sender
me = record { chute = 0 }

abbrev unused : Receiver ℕ
unused = record waiting { shared = record (waiting.shared) { waker = [] } }

unused_made : channel_with_concurrency 2 ≡ some (me, unused)
unfolding channel_with_concurrency
unused_made = refl

waiting_parks : poll_next unused ≡ some (pending, waiting)
unfolding poll_next
waiting_parks = refl

woken_sends : Sender.send_many me waiting.shared (4 ∷ 5 ∷ []) ≡ some (none, woken.shared)
unfolding Sender.send_many
woken_sends = refl

answered_gives : poll_next woken ≡ some (ready (some 4), answered)
unfolding poll_next
answered_gives = refl

answered-History : History 2 resting answered false
answered-History =
    polled
      (batched (polled (made me unused unused_made) (inl refl) pending waiting waiting_parks)
        (omega arith) me (4 ∷ 5 ∷ []) woken.shared (λ e. cc) woken_sends)
      (inr refl) (ready (some 4)) answered answered_gives

History-Reach_example : IsValid answered × Reach 2 resting (whole answered false)
History-Reach_example = History-Reach 2 resting answered false (omega arith) answered-History
