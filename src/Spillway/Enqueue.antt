-- ===== src/Spillway/Enqueue.antt =====
-- What an enqueue changes (spillway/src/shared.rs, send_many_infallible).
use protosocket.Prelude.{
  ℕ, ◌<◌, ◌≡◌, ◌≢◌, inl, inr, refl, sym, false, ◌==◌, Bool-cases, List, [], ◌∷◌, ◌++◌, length,
  get_elem?, set, some, arith, get_elem?_below,
}
use protosocket.Spillway.Chute.{Chute, IsMarked}
use protosocket.Spillway.Shared.{Shared, wake, send_many_infallible}
use protosocket.Spillway.Contents.{AllMarked, AllMarked-get_elem?}

module _ {ℓ} {T : Type ℓ} where
  -- The chute after values have been put into it.
  abbrev pub extended : Chute T → List T → Chute T
  extended c values = record { queue = c.queue ++ values; clean = false }

  pub append-ne-nil : (xs ys : List T) → ys ≢ [] → length (xs ++ ys) == 0 ≡ false
  append-ne-nil [] [] h = absurd (h refl)
  append-ne-nil [] (y ∷ ys) h = ground arith
  append-ne-nil (x ∷ xs) ys h = ground arith

  pub extended-IsMarked :
      (c : Chute T) (values : List T) → values ≢ [] → IsMarked (extended c values)
  extended-IsMarked c values h = sym (append-ne-nil c.queue values h)

  -- What an enqueue changes: one chute, and the waker if that chute was empty.
  pub record Enqueues (s : Shared T) (chute : ℕ) (c : Chute T) (values : List T) (s' : Shared T)
      : Type ℓ where
    pub chutes_set : s'.chutes ≡ set s.chutes chute (extended c values)
    pub same_size : s'.channel_size ≡ s.channel_size
    pub same_capacity : s'.capacity ≡ s.capacity
    pub same_senders : s'.senders ≡ s.senders
    pub same_dead : s'.dead ≡ s.dead
    pub woken : c.queue ≡ [] → s'.waker ≡ wake ∷ s.waker

  pub send_many_infallible-Enqueues :
      (s : Shared T) (chute : ℕ) (values : List T)
      → AllMarked s.chutes
      → chute < length s.chutes
      → (c : Chute T) × (s' : Shared T) × (get_elem? s.chutes chute ≡ some c)
        × (send_many_infallible s chute values ≡ some s')
        × Enqueues s chute c values s'
  unfolding send_many_infallible
  send_many_infallible-Enqueues s chute values m lt =
      let (c, at) = get_elem?_below s.chutes chute lt in
      let marked = AllMarked-get_elem? s.chutes chute at m in
      elim (Bool-cases (length c.queue == 0)) [
        | inl empty ↦ (
          c,
          record s { chutes = set s.chutes chute (extended c values); waker = wake ∷ s.waker },
          at,
          ground arith,
          ground arith,
        )
        | inr more ↦ (
          c,
          record s { chutes = set s.chutes chute (extended c values) },
          at,
          ground arith,
          record {
            chutes_set = refl;
            same_size = refl;
            same_capacity = refl;
            same_senders = refl;
            same_dead = refl;
            woken = λ e. ground arith;
          },
        )
      ]
