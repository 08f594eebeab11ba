-- ===== src/Spillway/Race.antt =====
-- spillway/src/receiver.rs (`poll_next`) and spillway/src/shared.rs under interleaving: the receiver
-- and the senders of an unbounded channel, an access to what they share at a time.
pub mod Watching
pub mod Looking
pub mod Wakes
pub mod Ending
pub mod Whole
pub mod Runs
pub mod Alone
pub mod Sends
pub mod Holding
pub mod Senders
pub mod Histories
use protosocket.Prelude.{
  ℕ, suc, ◌+◌, ◌%◌, ◌^◌, ◌<◌, ◌≡◌, Bool, true, false, not, ◌||◌, if◌then◌else◌, ltb, ◌==◌, List, [],
  ◌∷◌, ◌++◌, length, get_elem?, set, replicate, Option, none, some,
}
use protosocket.Spillway.Chute
use protosocket.Spillway.Chute.{Chute}

-- Where the sender that has the lock of a chute stands in `Chute::send_many`: the lock is free, the
-- values are in the queue, or the chute is marked dirty and the wake is still to come.
pub data Holder : Type 0 where
  free extended marked : Holder

pub record Cell {ℓ} (T : Type ℓ) : Type ℓ where
  pub chute : Chute T
  pub holder : Holder

-- What the senders and the receiver share. `registered` says that the `AtomicWaker` holds the waker
-- of the receiver's task, `scheduled` that the task was woken since its last poll began, and
-- `leaving` that the last sender has counted itself out and is about to wake.
pub record Race {ℓ} (T : Type ℓ) : Type ℓ where
  pub cells : List (Cell T)
  pub senders : ℕ
  pub leaving : Bool
  pub registered : Bool
  pub scheduled : Bool
  pub cursor : ℕ
  pub buffer : List T

-- Where the receiver stands: between polls (a poll has returned a value, or there was none yet), in
-- the round `i` of a look for a dirty chute, before it registers, before it loads the count of the
-- senders, before it swaps a chute; or its last poll returned `Pending` or the end, or panicked.
pub data Place : Type 0 where
  resting registering counting parked ended panicked : Place
  first second taking : ℕ → Place

module _ {ℓ} {T : Type ℓ} where
  -- `channel_with_concurrency`, with the sender that it returns.
  unfoldable pub initial : ℕ → Race T
  unfolding Chute.default
  initial concurrency = record {
    cells = replicate concurrency (record { chute = Chute.default; holder = free });
    senders = 1;
    leaving = false;
    registered = false;
    scheduled = true;
    cursor = 0;
    buffer = [];
  }

  -- `AtomicWaker::wake` takes the waker that is registered, if there is one, and wakes its task.
  unfoldable pub wake : Race T → Race T
  wake s = record s { registered = false; scheduled = s.scheduled || s.registered }

  -- `Chute::send_many` with the lock: up to the mark if the queue was empty, and to its end if not.
  unfoldable pub extend : Cell T → List T → Cell T
  extend c values = record {
    chute = record (c.chute) { queue = c.chute.queue ++ values };
    holder = if length c.chute.queue == 0 then extended else free;
  }

  unfoldable pub mark : Cell T → Cell T
  mark c = record { chute = record (c.chute) { clean = false }; holder = marked }

  unfoldable pub release : Cell T → Cell T
  release c = record c { holder = free }

  -- What another thread sees of the mark of a chute, with no lock.
  abbrev pub is_dirty : Option (Cell T) → Bool
  is_dirty none = false
  is_dirty (some c) = not c.chute.clean

  abbrev pub chute_at : Race T → ℕ → ℕ
  chute_at s i = (s.cursor + i) % length s.cells

  -- One round of `race_find_dirty`, with where the receiver goes if there is none left.
  unfoldable pub look : Race T → ℕ → (ℕ → Place) → Place → Place
  look s i again over =
      if ltb i (length s.cells)
      then (if is_dirty (get_elem? s.cells (chute_at s i))
          then taking (chute_at s i)
          else again (suc i))
      else over

  -- `pop_front` and `expect` after the swap.
  unfoldable pub pop : Race T → List T → Place × Race T
  pop s [] = (panicked, s)
  pop s (v ∷ rest) = (resting, record s { buffer = rest })

  -- The swap waits for the lock of the chute.
  unfoldable pub swap : Race T → ℕ → Cell T → Holder → Option (Place × Race T)
  unfolding Chute.swap pop
  swap s i c free =
      let (chute, filled) = Chute.swap c.chute s.buffer in
      some (
        pop
          (record s {
            cells = set s.cells i (record { chute = chute; holder = free });
            cursor = (i + 1) % length s.cells;
            buffer = filled;
          })
          filled)
  swap s i c _ = none

  unfoldable pub begin : Race T → List T → Place × Race T
  unfolding pop
  begin s [] = (first 0, record s { scheduled = false })
  begin s (v ∷ rest) = pop (record s { scheduled = false }) (v ∷ rest)

  -- One step of the receiver. `none` where it cannot go on: it waits for a lock, or is at its end.
  unfoldable pub receive : Place → Race T → Option (Place × Race T)
  unfolding begin look swap
  receive resting s = some (begin s s.buffer)
  receive parked s = some (begin s s.buffer)
  receive (first i) s = some (look s i first registering, s)
  receive registering s = some (second 0, record s { registered = true })
  receive (second i) s = some (look s i second counting, s)
  receive counting s = some (if s.senders == 0 then ended else parked, s)
  receive (taking i) s = elim (get_elem? s.cells i) [ none ↦ none | some c ↦ swap s i c c.holder ]
  receive ended s = none
  receive panicked s = none

  abbrev pub AllFree : List (Cell T) → Type 0
  AllFree [] = Unit
  AllFree (c ∷ cs) = (c.holder ≡ free) × AllFree cs

  -- One step of a sender: within a send, a clone, a drop, or the wake of the last drop. A send and a
  -- clone have a sender; the last sender is not dropped within a send; and there are fewer than
  -- 2 ^ 64 senders.
  pub data SenderStep (s : Race T) : Race T → Type ℓ where
    extend_step :
        (i : ℕ) (c : Cell T) (values : List T)
        → 0 < s.senders
        → get_elem? s.cells i ≡ some c
        → c.holder ≡ free
        → SenderStep s (record s { cells = set s.cells i (extend c values) })
    mark_step :
        (i : ℕ) (c : Cell T)
        → get_elem? s.cells i ≡ some c
        → c.holder ≡ extended
        → SenderStep s (record s { cells = set s.cells i (mark c) })
    wake_step :
        (i : ℕ) (c : Cell T)
        → get_elem? s.cells i ≡ some c
        → c.holder ≡ marked
        → SenderStep s (wake (record s { cells = set s.cells i (release c) }))
    clone_step :
        0 < s.senders → s.senders + 1 < 2 ^ 64 → SenderStep s (record s { senders = s.senders + 1 })
    drop_step : (n : ℕ) → s.senders ≡ suc (suc n) → SenderStep s (record s { senders = suc n })
    drop_last_step :
        s.senders ≡ 1 → AllFree s.cells → SenderStep s (record s { senders = 0; leaving = true })
    wake_last_step : s.leaving ≡ true → SenderStep s (wake (record s { leaving = false }))

  -- The states that a new channel of `n` chutes comes to.
  pub data Reach (n : ℕ) : Place → Race T → Type ℓ where
    start : Reach n resting (initial n)
    sent : {p : Place} {s t : Race T} → Reach n p s → SenderStep s t → Reach n p t
    received : {p q : Place} {s t : Race T} → Reach n p s → receive p s ≡ some (q, t) → Reach n q t
