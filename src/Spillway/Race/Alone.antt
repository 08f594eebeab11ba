-- ===== src/Spillway/Race/Alone.antt =====
-- A poll that nobody interrupts (spillway/src/receiver.rs, poll_next), in the steps of Race.
use protosocket.Prelude.{
  Poll, ready, pending, ℕ, ◌≡◌, ◌⊎◌, inl, inr, refl, sym, subst, ◌∙◌, Bool, true, false, ◌==◌,
  Bool-cases, Option-cases, List, [], ◌∷◌, length, get_elem?, Option, none, some, arith,
}
use protosocket.Prelude.Word.{u64_max}
use protosocket.Spillway.Chute
use protosocket.Spillway.Chute.{Chute}
use protosocket.Spillway.Shared.{race_find_dirty}
use protosocket.Spillway.Contents.{find_dirty-some}
use protosocket.Spillway.Receiver.{
  Receiver, decrement_size, pop_buffer, double_check, find_next, poll_next_on, poll_next,
}
use protosocket.Spillway.Receiver.Validity.{IsValid, taken, take_chute_lem, registered}
use protosocket.Spillway.Race.Whole.{whole, length-free_cells, get_elem?-free_cells, free_cells-set}
use protosocket.Spillway.Race.{
  Race, Place, resting, registering, counting, parked, ended, first, second, taking, swap, pop,
  begin, receive,
}
use protosocket.Spillway.Race.Runs.{look_ends, Runs, stop, step, Runs-trans, look-Runs}

module _ {ℓ} {T : Type ℓ} where
  -- Where a poll leaves the receiver.
  abbrev pub place : Poll (Option T) → Place
  place (ready (some v)) = resting
  place (ready none) = ended
  place pending = parked

  pop_unbounded :
      (r : Receiver T) (v : T) (rest : List T)
      → r.shared.capacity ≡ u64_max
      → pop_buffer r (v ∷ rest) ≡ some (ready (some v), record r { buffer = rest })
  unfolding pop_buffer decrement_size
  pop_unbounded r v rest e = ground (arith, e)

  take-Runs :
      (r : Receiver T) (k : ℕ) (c : Chute T) (v : T) (rest : List T) (scheduled : Bool)
      → r.buffer ≡ []
      → get_elem? r.shared.chutes k ≡ some c
      → c.queue ≡ v ∷ rest
      → Runs
          (taking k)
          (whole r scheduled)
          resting
          (whole (record (taken r k (v ∷ rest)) { buffer = rest }) scheduled)
  unfolding receive swap pop Chute.swap
  take-Runs r k c v rest scheduled empty at held =
      step
        (ground (
          arith,
          empty,
          held,
          get_elem?-free_cells r.shared.chutes k c at,
          free_cells-set r.shared.chutes k (record { queue = []; clean = true }),
          length-free_cells r.shared.chutes,
        ))
        stop

  -- What a poll leaves alone.
  abbrev pub SameShared : Receiver T → Receiver T → Type 0
  SameShared r r' =
      (r'.shared.capacity ≡ r.shared.capacity)
      × (r'.shared.senders ≡ r.shared.senders)
      × (r'.shared.dead ≡ r.shared.dead)

  -- The poll of `r` returns, and is what the receiver does from `p` on.
  abbrev pub Follows : Place → Receiver T → Bool → Type ℓ
  Follows p r scheduled =
      (a : Poll (Option T)) × (r' : Receiver T) × (poll_next r ≡ some (a, r'))
      × Runs p (whole r scheduled) (place a) (whole r' false)
      × SameShared r r'

  module _ (r : Receiver T) (empty : r.buffer ≡ []) (unbounded : r.shared.capacity ≡ u64_max)
      (h : IsValid r) where
    first_Runs :
        Runs
          (first 0)
          (whole r false)
          (look_ends (race_find_dirty r.shared r.cursor) registering)
          (whole r false)
    unfolding receive race_find_dirty
    first_Runs =
        look-Runs r.shared.chutes (whole r false) refl first registering (λ i. refl)
          (length r.shared.chutes) 0 (omega arith)

    second_Runs :
        Runs
          (second 0)
          (whole (registered r) false)
          (look_ends (race_find_dirty r.shared r.cursor) counting)
          (whole (registered r) false)
    unfolding receive race_find_dirty
    second_Runs =
        look-Runs r.shared.chutes (whole (registered r) false) refl second counting (λ i. refl)
          (length r.shared.chutes) 0 (omega arith)

    abbrev Finds : Type ℓ
    Finds =
        (a : Poll (Option T)) × (r' : Receiver T) × (find_next r ≡ some (a, r'))
        × Runs (first 0) (whole r false) (place a) (whole r' false)
        × SameShared r r'

    found_Finds : (k : ℕ) → race_find_dirty r.shared r.cursor ≡ some k → Finds
    unfolding find_next race_find_dirty
    found_Finds k e =
        let (c, v, rest, at, held) = find_dirty-some r.shared.chutes r.cursor h.marked e in
        let taken_over =
          take_chute_lem r k c empty at held
          ∙ pop_unbounded (taken r k (v ∷ rest)) v rest unbounded in
        (
          ready (some v),
          record (taken r k (v ∷ rest)) { buffer = rest },
          rw (e, find_next) taken_over,
          Runs-trans
              (subst (λ o. Runs (first 0) (whole r false) (look_ends o registering) (whole r false))
                e first_Runs)
              (take-Runs r k c v rest false empty at held),
          (refl, refl, refl),
        )

    none_Finds : race_find_dirty r.shared r.cursor ≡ none → Finds
    unfolding find_next double_check race_find_dirty receive
    none_Finds e =
        let looked =
          Runs-trans
            (subst (λ o. Runs (first 0) (whole r false) (look_ends o registering) (whole r false)) e
              first_Runs)
            (step refl (
              subst
                (λ o.
                  Runs (second 0) (whole (registered r) false) (look_ends o counting)
                    (whole (registered r) false))
                e second_Runs)) in
        elim (Bool-cases (r.shared.senders == 0)) [
          | inl last ↦ (
            ready none,
            registered r,
            ground (arith, e, last),
            Runs-trans looked (step (ground (arith, last)) stop),
            (refl, refl, refl),
          )
          | inr more ↦ (
            pending,
            registered r,
            ground (arith, e, more),
            Runs-trans looked (step (ground (arith, more)) stop),
            (refl, refl, refl),
          )
        ]

    find_next-Finds : Finds
    find_next-Finds = elim (Option-cases (race_find_dirty r.shared r.cursor)) [
      | inl e ↦ none_Finds e
      | inr (k, e) ↦ found_Finds k e
    ]

  poll_on_Follows :
      (vs : List T) (p : Place) (r : Receiver T) (scheduled : Bool)
      → r.buffer ≡ vs
      → ((s : Race T) → receive p s ≡ some (begin s s.buffer))
      → r.shared.capacity ≡ u64_max
      → IsValid r
      → (a : Poll (Option T)) × (r' : Receiver T) × (poll_next_on vs r ≡ some (a, r'))
        × Runs p (whole r scheduled) (place a) (whole r' false)
        × SameShared r r'
  unfolding poll_next_on begin pop
  poll_on_Follows [] p r scheduled e begins unbounded h =
      let (a, r', found, runs, same) = find_next-Finds r e unbounded h in
      (a, r', found, step (begins (whole r scheduled) ∙ ground (arith, e)) runs, same)
  poll_on_Follows (v ∷ rest) p r scheduled e begins unbounded h = (
    ready (some v),
    record r { buffer = rest },
    pop_unbounded r v rest unbounded,
    step (begins (whole r scheduled) ∙ ground (arith, e)) stop,
    (refl, refl, refl),
  )

  -- A poll of a valid unbounded receiver that nobody interrupts, when the last one has returned a
  -- value or `Pending` or there was none: `poll_next` returns, and the steps of the receiver in
  -- `Race` lead to the place that its answer says and to the state that it leaves.
  pub poll_next-Follows :
      (p : Place) (r : Receiver T) (scheduled : Bool)
      → (p ≡ resting) ⊎ (p ≡ parked)
      → r.shared.capacity ≡ u64_max
      → IsValid r
      → Follows p r scheduled
  unfolding poll_next receive
  poll_next-Follows p r scheduled (inl e) unbounded h =
      subst (λ q. Follows q r scheduled) (sym e)
        (poll_on_Follows r.buffer resting r scheduled refl (λ s. refl) unbounded h)
  poll_next-Follows p r scheduled (inr e) unbounded h =
      subst (λ q. Follows q r scheduled) (sym e)
        (poll_on_Follows r.buffer parked r scheduled refl (λ s. refl) unbounded h)
