-- ===== src/Level/Balance.antt =====
-- Where a balanced task goes (level-runtime/src/runtime.rs, balance_workers).
use protosocket.Prelude.{
  ℕ, zero, suc, ◌≤◌, ◌<◌, ◌≡◌, ◌≢◌, ◌⊎◌, inl, inr, refl, ap, subst, ltb, ltb→lt, ltb→le, Bool-cases,
  List, [], ◌∷◌, length, get_elem?, some, arith, get_elem?_below,
}
use mathlib.Core.Option.{some_inj}
use protosocket.Level.Worker
use protosocket.Level.Worker.{LevelWorker}
use protosocket.Level.Runtime.{LevelRuntime, balance_workers, spawn_at, spawn_balanced}

module _ {ℓ} {F : Type ℓ} where
  -- The worker `w` at `i` is one of the two that were drawn, has no more load than either, and got the
  -- task; the others are as they were.
  pub record Balances (r : LevelRuntime F) (a b : ℕ) (future : F) (r' : LevelRuntime F)
      : Type ℓ where
    pub at : ℕ
    pub worker : LevelWorker F
    pub drawn : (at ≡ a) ⊎ (at ≡ b)
    pub there : get_elem? r.workers at ≡ some worker
    pub lighter :
        (j : ℕ) (other : LevelWorker F)
        → (j ≡ a) ⊎ (j ≡ b)
        → get_elem? r.workers j ≡ some other
        → worker.concurrency ≤ other.concurrency
    pub spawned : get_elem? r'.workers at ≡ some (Worker.spawn_local worker future)
    pub elsewhere : (j : ℕ) → at ≢ j → get_elem? r'.workers j ≡ get_elem? r.workers j

  get_elem?-spawn_at_self :
      (ws : List (LevelWorker F)) (i : ℕ) (w : LevelWorker F) (f : F)
      → get_elem? ws i ≡ some w
      → get_elem? (spawn_at ws i f) i ≡ some (Worker.spawn_local w f)
  unfolding spawn_at
  get_elem?-spawn_at_self [] i w f e = absurd (ground arith)
  get_elem?-spawn_at_self (x ∷ ws) zero w f e =
      ap (λ v. some (Worker.spawn_local v f)) (some_inj.0 e)
  get_elem?-spawn_at_self (x ∷ ws) (suc i) w f e = get_elem?-spawn_at_self ws i w f e

  get_elem?-spawn_at_ne :
      (ws : List (LevelWorker F)) (i j : ℕ) (f : F)
      → i ≢ j
      → get_elem? (spawn_at ws i f) j ≡ get_elem? ws j
  unfolding spawn_at
  get_elem?-spawn_at_ne [] i j f ne = refl
  get_elem?-spawn_at_ne (x ∷ ws) zero zero f ne = absurd (ne refl)
  get_elem?-spawn_at_ne (x ∷ ws) zero (suc j) f ne = refl
  get_elem?-spawn_at_ne (x ∷ ws) (suc i) zero f ne = refl
  get_elem?-spawn_at_ne (x ∷ ws) (suc i) (suc j) f ne =
      get_elem?-spawn_at_ne ws i j f (λ e. ne (ap suc e))

  chosen :
      (r : LevelRuntime F) (a b i : ℕ) (w wa wb : LevelWorker F) (f : F)
      → (i ≡ a) ⊎ (i ≡ b)
      → get_elem? r.workers i ≡ some w
      → get_elem? r.workers a ≡ some wa
      → get_elem? r.workers b ≡ some wb
      → w.concurrency ≤ wa.concurrency
      → w.concurrency ≤ wb.concurrency
      → Balances r a b f (record { workers = spawn_at r.workers i f })
  chosen r a b i w wa wb f d at ata atb la lb = record {
    at = i;
    worker = w;
    drawn = d;
    there = at;
    lighter = λ j other dj atj. elim dj [
      | inl e ↦
          (let same : wa ≡ other = ground (arith, ata, atj, e) in
            subst (λ v. w.concurrency ≤ v.concurrency) same la)
      | inr e ↦
          (let same : wb ≡ other = ground (arith, atb, atj, e) in
            subst (λ v. w.concurrency ≤ v.concurrency) same lb)
    ];
    spawned = get_elem?-spawn_at_self r.workers i w f at;
    elsewhere = λ j ne. get_elem?-spawn_at_ne r.workers i j f ne;
  }

  -- A balanced spawn with two numbers below the count of the workers returns; the task goes to one of
  -- the two workers that were drawn, which has no more tasks counted than either, and the others are
  -- as they were.
  pub spawn_balanced-Balances :
      (r : LevelRuntime F) (a b : ℕ) (f : F)
      → a < length r.workers
      → b < length r.workers
      → (r' : LevelRuntime F) × (spawn_balanced r a b f ≡ some r') × Balances r a b f r'
  unfolding spawn_balanced balance_workers
  spawn_balanced-Balances r a b f la lb =
      let (wa, ata) = get_elem?_below r.workers a la in
      let (wb, atb) = get_elem?_below r.workers b lb in
      elim (Bool-cases (ltb wa.concurrency wb.concurrency)) [
        | inl e ↦ (
          record { workers = spawn_at r.workers a f },
          ground (arith, ata, atb, e),
          chosen r a b a wa wa wb f (inl refl) ata ata atb (omega arith)
              (omega (arith, ltb→lt wa.concurrency wb.concurrency e)),
        )
        | inr e ↦ (
          record { workers = spawn_at r.workers b f },
          ground (arith, ata, atb, e),
          chosen r a b b wb wa wb f (inr refl) atb ata atb
              (omega (arith, ltb→le wa.concurrency wb.concurrency e)) (omega arith),
        )
      ]
