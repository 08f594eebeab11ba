-- ===== src/Level/Worker.antt =====
-- level-runtime/src/concurrency_tracker.rs and worker.rs: a worker with the count of its tasks.
use protosocket.Prelude.{ℕ, zero, suc, Poll, List, [], ◌∷◌, Option, none, some}
use protosocket.Prelude.Word.{add64, sub64}

-- `ConcurrencyTracker`: its counter is that of the worker which holds it.
pub record ConcurrencyTracker {ℓ} (F : Type ℓ) : Type ℓ where
  pub future : F

-- `LevelWorker`, and the handles that share its counter. A tokio runtime is third-party code; of what
-- it holds, `tasks` are the futures that were spawned with a tracker and not dropped yet.
pub record LevelWorker {ℓ} (F : Type ℓ) : Type ℓ where
  pub concurrency : ℕ  -- AtomicUsize
  pub tasks : List (ConcurrencyTracker F)

-- `Drop` of a tracker.
unfoldable pub drop_tracker : ℕ → ℕ
drop_tracker concurrency = sub64 concurrency 1

module _ {ℓ} {F : Type ℓ} where
  unfoldable pub from_runtime : LevelWorker F
  from_runtime = record { concurrency = 0; tasks = [] }

  -- `ConcurrencyTracker::wrap`, with the counter after it.
  unfoldable pub wrap : ℕ → F → ConcurrencyTracker F × ℕ
  wrap concurrency future = (record { future = future }, add64 concurrency 1)

  -- `poll` of a tracker, where `poll_future` polls the future.
  unfoldable pub poll_tracker {κ} :
      {A : Type κ} → (F → F × Poll A) → ConcurrencyTracker F → ConcurrencyTracker F × Poll A
  poll_tracker poll_future t =
      let (future, p) = poll_future t.future in (record { future = future }, p)

  -- `LevelWorkerHandle::spawn_local`
  unfoldable pub spawn_local : LevelWorker F → F → LevelWorker F
  unfolding wrap
  spawn_local w future =
      let (task, concurrency) = wrap w.concurrency future in
      record { concurrency = concurrency; tasks = task ∷ w.tasks }

  -- The runtime drops the task `i`, which has ended or was aborted.
  abbrev pub without : List (ConcurrencyTracker F) → ℕ → List (ConcurrencyTracker F)
  without [] i = []
  without (t ∷ ts) zero = ts
  without (t ∷ ts) (suc i) = t ∷ without ts i

  unfoldable pub drop_task : LevelWorker F → ℕ → LevelWorker F
  unfolding drop_tracker
  drop_task w i = record { concurrency = drop_tracker w.concurrency; tasks = without w.tasks i }

-- The handle of a thread, by the worker's place in its runtime. `run` asserts that there is none and
-- leaves the worker's; `none` is a panic.
unfoldable pub run : Option ℕ → ℕ → Option (Option ℕ)
run (some other) me = none
run none me = some (some me)
