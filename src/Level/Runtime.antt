-- ===== src/Level/Runtime.antt =====
-- level-runtime/src/runtime.rs: the workers of a runtime, and where a task goes.
use protosocket.Prelude.{
  ℕ, zero, suc, if◌then◌else◌, ltb, List, [], ◌∷◌, get_elem?, Option, none, some,
}
use protosocket.Level.Worker
use protosocket.Level.Worker.{LevelWorker}

-- `LevelRuntimeHandle`: `LevelRuntime` has the same workers.
pub record LevelRuntime {ℓ} (F : Type ℓ) : Type ℓ where
  pub workers : List (LevelWorker F)

module _ {ℓ} {F : Type ℓ} where
  -- `balance_workers` for the random numbers `a` and `b`: the worker's place. A range of no workers
  -- panics, so that the numbers are below their count.
  unfoldable pub balance_workers : List (LevelWorker F) → ℕ → ℕ → Option ℕ
  balance_workers workers a b = elim (get_elem? workers a) [
    | none ↦ none
    | some wa ↦ elim (get_elem? workers b) [
      | none ↦ none
      | some wb ↦ some (if ltb wa.concurrency wb.concurrency then a else b)
    ]
  ]

  -- The worker that is there gets the task.
  unfoldable pub spawn_at : List (LevelWorker F) → ℕ → F → List (LevelWorker F)
  unfolding Worker.spawn_local
  spawn_at [] i future = []
  spawn_at (w ∷ ws) zero future = Worker.spawn_local w future ∷ ws
  spawn_at (w ∷ ws) (suc i) future = w ∷ spawn_at ws i future

  -- `LevelRuntimeHandle::spawn_balanced`
  unfoldable pub spawn_balanced : LevelRuntime F → ℕ → ℕ → F → Option (LevelRuntime F)
  unfolding balance_workers spawn_at
  spawn_balanced r a b future = elim (balance_workers r.workers a b) [
    | none ↦ none
    | some i ↦ some (record { workers = spawn_at r.workers i future })
  ]

  -- `LevelRuntimeHandle::spawn_on_each`: the worker `i` gets the future of the call `i` of `future`.
  unfoldable pub spawn_each : List (LevelWorker F) → ℕ → (ℕ → F) → List (LevelWorker F)
  unfolding Worker.spawn_local
  spawn_each [] i future = []
  spawn_each (w ∷ ws) i future = Worker.spawn_local w (future i) ∷ spawn_each ws (suc i) future

  unfoldable pub spawn_on_each : LevelRuntime F → (ℕ → F) → LevelRuntime F
  unfolding spawn_each
  spawn_on_each r future = record { workers = spawn_each r.workers 0 future }

  -- `set_default`, and the functions that use the default: `none` is a panic.
  unfoldable pub set_default :
      Option (LevelRuntime F) → LevelRuntime F → Option (Option (LevelRuntime F))
  set_default none r = some (some r)
  set_default (some other) r = none

  unfoldable pub spawn_balanced_default :
      Option (LevelRuntime F) → ℕ → ℕ → F → Option (LevelRuntime F)
  unfolding spawn_balanced
  spawn_balanced_default none a b future = none
  spawn_balanced_default (some r) a b future = spawn_balanced r a b future

  unfoldable pub spawn_on_each_default : Option (LevelRuntime F) → (ℕ → F) → Option (LevelRuntime F)
  unfolding spawn_on_each
  spawn_on_each_default none future = none
  spawn_on_each_default (some r) future = some (spawn_on_each r future)

  -- `spawn_local` of worker.rs, on a thread with the given handle.
  unfoldable pub spawn_local_here : Option ℕ → LevelRuntime F → F → Option (LevelRuntime F)
  unfolding spawn_at
  spawn_local_here none r future = none
  spawn_local_here (some i) r future = some (record { workers = spawn_at r.workers i future })
