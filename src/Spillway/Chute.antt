-- ===== src/Spillway/Chute.antt =====
-- spillway/src/shared.rs: a chute, the queue that some of the senders share. Its lock is held for
-- the whole of each method, so a method is one step.
use protosocket.Prelude.{◌≡◌, Bool, true, false, if◌then◌else◌, ◌==◌, List, [], ◌++◌, length}

pub record Chute {ℓ} (T : Type ℓ) : Type ℓ where
  pub queue : List T
  pub clean : Bool

module _ {ℓ} {T : Type ℓ} where
  -- `Chute::default`
  unfoldable pub default : Chute T
  default = record { queue = []; clean = true }

  -- Whether `on_dirty` runs is the second component.
  unfoldable pub send_many : Chute T → List T → Chute T × Bool
  send_many c values =
      if length c.queue == 0
      then (record { queue = c.queue ++ values; clean = false }, true)
      else (record c { queue = c.queue ++ values }, false)

  -- The new contents of the argument `new_queue` are the second component.
  unfoldable pub swap : Chute T → List T → Chute T × List T
  swap c new_queue = (record { queue = new_queue; clean = true }, c.queue)

  -- A chute is marked clean exactly while it is empty.
  abbrev pub IsMarked : Chute T → Type 0
  IsMarked c = c.clean ≡ (length c.queue == 0)
