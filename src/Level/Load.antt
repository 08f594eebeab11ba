-- ===== src/Level/Load.antt =====
-- The load of the workers (level-runtime/src/concurrency_tracker.rs, worker.rs and runtime.rs).
use protosocket.Prelude.{
  ℕ, zero, suc, ◌%◌, ◌^◌, ◌<◌, ◌≡◌, inl, inr, refl, sym, ap, subst, Option-cases, List, [], ◌∷◌,
  length, get_elem?, set, replicate, Option, none, some, arith,
}
use mathlib.Core.Option.{some_inj}
use protosocket.Level.Worker
use protosocket.Level.Worker.{LevelWorker, without, from_runtime, drop_task}
use protosocket.Level.Runtime.{
  LevelRuntime, balance_workers, spawn_at, spawn_balanced, spawn_each, spawn_on_each,
  spawn_local_here,
}

module _ {ℓ} {F : Type ℓ} where
  -- What happens to a runtime of `n` workers: tasks are spawned, by any random numbers and on any
  -- thread, and dropped.
  pub data Step (r : LevelRuntime F) : LevelRuntime F → Type ℓ where
    balanced :
        (a b : ℕ) (future : F) {r' : LevelRuntime F}
        → spawn_balanced r a b future ≡ some r'
        → Step r r'
    on_each : (future : ℕ → F) → Step r (spawn_on_each r future)
    here :
        (thread : Option ℕ) (future : F) {r' : LevelRuntime F}
        → spawn_local_here thread r future ≡ some r'
        → Step r r'
    dropped :
        (i k : ℕ) (w : LevelWorker F)
        → get_elem? r.workers i ≡ some w
        → k < length w.tasks
        → Step r (record { workers = set r.workers i (drop_task w k) })

  pub data Reach (n : ℕ) : LevelRuntime F → Type ℓ where
    start : Reach n (record { workers = replicate n from_runtime })
    step : {r r' : LevelRuntime F} → Reach n r → Step r r' → Reach n r'

  -- The counter of a worker is the number of its tasks, on 64 bits.
  abbrev pub Counts : LevelWorker F → Type 0
  Counts w = w.concurrency ≡ length w.tasks % 2 ^ 64

  abbrev pub AllCount : List (LevelWorker F) → Type 0
  AllCount [] = Unit
  AllCount (w ∷ ws) = Counts w × AllCount ws

  spawn_local-Counts : (w : LevelWorker F) (f : F) → Counts w → Counts (Worker.spawn_local w f)
  unfolding Worker.spawn_local
  spawn_local-Counts w f h = omega (arith, h)

  length-without :
      (ts : List (Worker.ConcurrencyTracker F)) (k : ℕ)
      → k < length ts
      → suc (length (without ts k)) ≡ length ts
  length-without [] k h = absurd (omega arith)
  length-without (t ∷ ts) zero h = refl
  length-without (t ∷ ts) (suc k) h = ap suc (length-without ts k (omega arith))

  drop_task-Counts :
      (w : LevelWorker F) (k : ℕ) → k < length w.tasks → Counts w → Counts (drop_task w k)
  unfolding drop_task
  drop_task-Counts w k lt h = omega (arith, h, length-without w.tasks k lt)

  AllCount-set :
      (ws : List (LevelWorker F)) (i : ℕ) (w : LevelWorker F)
      → Counts w
      → AllCount ws
      → AllCount (set ws i w)
  AllCount-set [] i w c h = tt
  AllCount-set (x ∷ ws) zero w c h = (c, h.1)
  AllCount-set (x ∷ ws) (suc i) w c h = (h.0, AllCount-set ws i w c h.1)

  AllCount-get_elem? :
      (ws : List (LevelWorker F)) (i : ℕ) (w : LevelWorker F)
      → get_elem? ws i ≡ some w
      → AllCount ws
      → Counts w
  AllCount-get_elem? [] i w e h = absurd (ground arith)
  AllCount-get_elem? (x ∷ ws) zero w e h = ground (arith, h.0, e)
  AllCount-get_elem? (x ∷ ws) (suc i) w e h = AllCount-get_elem? ws i w e h.1

  spawn_at-AllCount :
      (ws : List (LevelWorker F)) (i : ℕ) (f : F) → AllCount ws → AllCount (spawn_at ws i f)
  unfolding spawn_at
  spawn_at-AllCount [] i f h = tt
  spawn_at-AllCount (w ∷ ws) zero f h = (spawn_local-Counts w f h.0, h.1)
  spawn_at-AllCount (w ∷ ws) (suc i) f h = (h.0, spawn_at-AllCount ws i f h.1)

  spawn_each-AllCount :
      (ws : List (LevelWorker F)) (i : ℕ) (f : ℕ → F) → AllCount ws → AllCount (spawn_each ws i f)
  unfolding spawn_each
  spawn_each-AllCount [] i f h = tt
  spawn_each-AllCount (w ∷ ws) i f h =
      (spawn_local-Counts w (f i) h.0, spawn_each-AllCount ws (suc i) f h.1)

  -- A balanced task goes to the worker that was chosen.
  pub balanced-at :
      (r : LevelRuntime F) (a b : ℕ) (f : F) {r' : LevelRuntime F}
      → spawn_balanced r a b f ≡ some r'
      → (i : ℕ) × (balance_workers r.workers a b ≡ some i)
        × (r' ≡ record { workers = spawn_at r.workers i f })
  unfolding spawn_balanced
  balanced-at r a b f {r'} e = elim (Option-cases (balance_workers r.workers a b)) [
    | inl gone ↦ absurd (ground (arith, gone, e))
    | inr (i, at) ↦ (i, at, ground (arith, at, e))
  ]

  Step-AllCount : {r r' : LevelRuntime F} → Step r r' → AllCount r.workers → AllCount r'.workers
  unfolding spawn_on_each spawn_local_here
  Step-AllCount {r} (balanced a b f e) h =
      let (i, _, same) = balanced-at r a b f e in
      subst (λ t. AllCount t.workers) (sym same) (spawn_at-AllCount r.workers i f h)
  Step-AllCount {r} (on_each f) h = spawn_each-AllCount r.workers 0 f h
  Step-AllCount {r} (here none f e) h = absurd (ground (arith, e))
  Step-AllCount {r} (here (some i) f e) h =
      subst (λ t. AllCount t.workers) (some_inj.0 e) (spawn_at-AllCount r.workers i f h)
  Step-AllCount {r} (dropped i k w at lt) h =
      AllCount-set r.workers i (drop_task w k)
        (drop_task-Counts w k lt (AllCount-get_elem? r.workers i w at h)) h

  replicate-AllCount : (n : ℕ) (w : LevelWorker F) → Counts w → AllCount (replicate n w)
  replicate-AllCount zero w h = tt
  replicate-AllCount (suc n) w h = (h, replicate-AllCount n w h)

  Reach-AllCount : (n : ℕ) {r : LevelRuntime F} → Reach n r → AllCount r.workers
  unfolding from_runtime
  Reach-AllCount n start = replicate-AllCount n from_runtime (omega arith)
  Reach-AllCount n (step r st) = Step-AllCount st (Reach-AllCount n r)

  -- Whatever tasks are spawned and dropped, in any order and on whatever threads, the counter of each
  -- worker of a runtime is the number of its tasks that were not dropped, modulo 2 ^ 64.
  pub concurrency-length :
      (n i : ℕ) (w : LevelWorker F) {r : LevelRuntime F}
      → Reach n r
      → get_elem? r.workers i ≡ some w
      → w.concurrency ≡ length w.tasks % 2 ^ 64
  concurrency-length n i w {r} h at = AllCount-get_elem? r.workers i w at (Reach-AllCount n h)
