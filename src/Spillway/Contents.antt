-- ===== src/Spillway/Contents.antt =====
-- What a channel holds (spillway/src/shared.rs): the values in its chutes, and the marks on them.
use protosocket.Prelude.{
  ℕ, zero, suc, ◌+◌, ◌-◌, ◌%◌, ◌≤◌, ◌<◌, ◌≡◌, ◌≢◌, inl, inr, refl, ◌∙◌, true, false, Bool-cases,
  Option-cases, List, [], ◌∷◌, length, get_elem?, set, Option, none, some, arith, length-eq-zero,
  get_elem?-lt, get_elem?-set_self, get_elem?-set_ne,
}
use native.Mathlib.Nat.{mod-eq_of_lt, mod-eq-sub-mod}
use native.Mathlib.Decide.{dec_lt}
use protosocket.Spillway.Chute.{Chute, IsMarked}
use protosocket.Spillway.Shared.{is_dirty, find_dirty}

-- Every index is met by the walk round the chutes.
pub round_trip : (offset k n : ℕ) → offset < n → k < n → (j : ℕ) × (j < n) × ((offset + j) % n ≡ k)
round_trip offset k n ho hk = elim (dec_lt k offset) [
  | yes before ↦ (
    k + n - offset,
    omega arith,
    (let e : offset + (k + n - offset) ≡ k + n = omega arith in
        rw e (
          mod-eq-sub-mod {n = k + n} {m = n} (omega arith)
          ∙ (let f : k + n - n ≡ k = omega arith in rw f (mod-eq_of_lt hk)))),
  )
  | no after ↦ (
    k - offset,
    omega arith,
    (let e : offset + (k - offset) ≡ k = omega arith in rw e (mod-eq_of_lt hk)),
  )
]

module _ {ℓ} {T : Type ℓ} where
  -- How many values the chutes hold.
  abbrev pub stored_in : List (Chute T) → ℕ
  stored_in [] = 0
  stored_in (c ∷ cs) = length c.queue + stored_in cs

  -- The values in the chute `k`.
  abbrev pub queue_at : List (Chute T) → ℕ → List T
  queue_at cs k = elim (get_elem? cs k) [ none ↦ [] | some c ↦ c.queue ]

  pub queue_at-some :
      (cs : List (Chute T)) (k : ℕ) {c : Chute T}
      → get_elem? cs k ≡ some c
      → queue_at cs k ≡ c.queue
  queue_at-some cs k at = rw (at, queue_at)

  pub queue_at-set_self :
      (cs : List (Chute T)) (k : ℕ) {c : Chute T} (c' : Chute T)
      → get_elem? cs k ≡ some c
      → queue_at (set cs k c') k ≡ c'.queue
  queue_at-set_self cs k c' at = rw (get_elem?-set_self cs k c' (get_elem?-lt cs k at), queue_at)

  pub queue_at-set_ne :
      (cs : List (Chute T)) {i k : ℕ} (c' : Chute T)
      → i ≢ k
      → queue_at (set cs i c') k ≡ queue_at cs k
  queue_at-set_ne cs c' ne = rw (get_elem?-set_ne cs c' ne, queue_at)

  -- Every chute has the mark that its queue asks for.
  abbrev pub AllMarked : List (Chute T) → Type 0
  AllMarked [] = Unit
  AllMarked (c ∷ cs) = IsMarked c × AllMarked cs

  pub AllMarked-set :
      (cs : List (Chute T)) (i : ℕ) (c : Chute T)
      → IsMarked c
      → AllMarked cs
      → AllMarked (set cs i c)
  AllMarked-set [] i c m h = tt
  AllMarked-set (x ∷ cs) zero c m h = (m, h.1)
  AllMarked-set (x ∷ cs) (suc i) c m h = (h.0, AllMarked-set cs i c m h.1)

  pub AllMarked-get_elem? :
      (cs : List (Chute T)) (i : ℕ) {c : Chute T}
      → get_elem? cs i ≡ some c
      → AllMarked cs
      → IsMarked c
  AllMarked-get_elem? [] i e h = absurd (ground arith)
  AllMarked-get_elem? (x ∷ cs) zero e h = ground arith
  AllMarked-get_elem? (x ∷ cs) (suc i) e h = AllMarked-get_elem? cs i e h.1

  pub stored_in-set :
      (cs : List (Chute T)) (i : ℕ) {c : Chute T} (c' : Chute T)
      → get_elem? cs i ≡ some c
      → stored_in (set cs i c') + length c.queue ≡ stored_in cs + length c'.queue
  stored_in-set [] i c' e = absurd (ground arith)
  stored_in-set (x ∷ cs) zero c' e = ground arith
  stored_in-set (x ∷ cs) (suc i) c' e = omega (arith, stored_in-set cs i c' e)

  find_dirty-is_dirty :
      (cs : List (Chute T)) (offset i left : ℕ) {k : ℕ}
      → find_dirty cs offset i left ≡ some k
      → is_dirty cs k ≡ true
  unfolding find_dirty
  find_dirty-is_dirty cs offset i zero h = cc
  find_dirty-is_dirty cs offset i (suc left) h =
      elim (Bool-cases (is_dirty cs ((offset + i) % length cs))) [
        | inl dirty ↦ ground (arith, dirty)
        | inr clean ↦ find_dirty-is_dirty cs offset (i + 1) left (rw clean at h)
      ]

  find_dirty-none :
      (cs : List (Chute T)) (offset i left : ℕ)
      → find_dirty cs offset i left ≡ none
      → (j : ℕ) → i ≤ j
      → j < i + left
      → is_dirty cs ((offset + j) % length cs) ≡ false
  unfolding find_dirty
  find_dirty-none cs offset i zero h j lo hi = absurd (omega arith)
  find_dirty-none cs offset i (suc left) h j lo hi =
      elim (Bool-cases (is_dirty cs ((offset + i) % length cs))) [
        | inl dirty ↦ absurd (ground (arith, dirty))
        | inr clean ↦ elim (dec_lt i j) [
          | yes later ↦
              find_dirty-none cs offset (i + 1) left (rw clean at h) j (omega arith) (omega arith)
          | no here ↦ let e : j ≡ i = omega arith in rw e clean
        ]
      ]

  pub find_dirty-none_all :
      (cs : List (Chute T)) (offset : ℕ)
      → offset < length cs
      → find_dirty cs offset 0 (length cs) ≡ none
      → (k : ℕ) → k < length cs
      → is_dirty cs k ≡ false
  find_dirty-none_all cs offset ho h k hk =
      let (j, hj, e) = round_trip offset k (length cs) ho hk in
      rw (← e) (find_dirty-none cs offset 0 (length cs) h j (omega arith) (omega arith))

  clean-stored_in :
      (cs : List (Chute T))
      → AllMarked cs
      → ((k : ℕ) → k < length cs → is_dirty cs k ≡ false)
      → stored_in cs ≡ 0
  clean-stored_in [] m h = refl
  clean-stored_in (c ∷ cs) m h =
      ground (arith, m.0, h 0, clean-stored_in cs m.1 (λ k hk. h (suc k) (omega arith)))

  -- What the search finds is a chute that is not empty.
  pub find_dirty-some :
      (cs : List (Chute T)) (offset : ℕ) {k : ℕ}
      → AllMarked cs
      → find_dirty cs offset 0 (length cs) ≡ some k
      → (c : Chute T) × (v : T) × (rest : List T) × (get_elem? cs k ≡ some c) × (c.queue ≡ v ∷ rest)
  find_dirty-some cs offset {k} m h = found (get_elem? cs k) refl
    where
      head_of :
          (c : Chute T) (q : List T)
          → c.queue ≡ q
          → get_elem? cs k ≡ some c
          → is_dirty cs k ≡ true
          → (c : Chute T) × (v : T) × (rest : List T) × (get_elem? cs k ≡ some c)
            × (c.queue ≡ v ∷ rest)
      head_of c [] e g d = absurd (ground (arith, AllMarked-get_elem? cs k g m))
      head_of c (v ∷ rest) e g d = (c, v, rest, g, e)

      found :
          (o : Option (Chute T))
          → get_elem? cs k ≡ o
          → (c : Chute T) × (v : T) × (rest : List T) × (get_elem? cs k ≡ some c)
            × (c.queue ≡ v ∷ rest)
      found none e = absurd (ground (arith, find_dirty-is_dirty cs offset 0 (length cs) h))
      found (some c) e = head_of c c.queue refl e (find_dirty-is_dirty cs offset 0 (length cs) h)

  -- The search finds nothing exactly when the chutes are all empty.
  pub find_dirty-none-stored_in :
      (cs : List (Chute T)) (offset : ℕ)
      → offset < length cs
      → AllMarked cs
      → find_dirty cs offset 0 (length cs) ≡ none
      → stored_in cs ≡ 0
  find_dirty-none-stored_in cs offset ho m h =
      clean-stored_in cs m (find_dirty-none_all cs offset ho h)

  pub stored_in-zero :
      (cs : List (Chute T)) (k : ℕ) {c : Chute T}
      → stored_in cs ≡ 0
      → get_elem? cs k ≡ some c
      → c.queue ≡ []
  stored_in-zero [] k z at = absurd (ground arith)
  stored_in-zero (x ∷ cs) zero {c} z at = length-eq-zero c.queue (ground arith)
  stored_in-zero (x ∷ cs) (suc k) z at = stored_in-zero cs k (omega arith) at

  -- What the search finds is marked dirty, and is there.
  pub find_dirty-there :
      (cs : List (Chute T)) (offset : ℕ) {k : ℕ}
      → find_dirty cs offset 0 (length cs) ≡ some k
      → (c : Chute T) × (get_elem? cs k ≡ some c) × (c.clean ≡ false)
  find_dirty-there cs offset {k} h = elim (Option-cases (get_elem? cs k)) [
    | inl e ↦ absurd (ground (arith, find_dirty-is_dirty cs offset 0 (length cs) h))
    | inr (c, e) ↦ (c, e, ground (arith, find_dirty-is_dirty cs offset 0 (length cs) h))
  ]
