-- ===== src/Spillway/Race/Sends.antt =====
-- A send that nobody interrupts (spillway/src/shared.rs, Chute::send_many), in the steps of Race.
use protosocket.Prelude.{
  ℕ, ◌<◌, ◌≡◌, refl, sym, subst, ◌∙◌, Bool, true, false, ◌||◌, ◌==◌, List, ◌++◌, length, get_elem?,
  set, some, arith, set-set, get_elem?-set_self, get_elem?-lt,
}
use protosocket.Spillway.Chute
use protosocket.Spillway.Chute.{Chute}
use protosocket.Spillway.Shared.{Shared, send_many_infallible, notify}
use protosocket.Spillway.Receiver.{Receiver}
use protosocket.Spillway.Race.{
  free, extended, marked, Cell, Race, Place, resting, parked, extend, mark, release, SenderStep,
  extend_step, mark_step, wake_step, clone_step, drop_step, drop_last_step, wake_last_step, AllFree,
  Reach, start, sent, received,
}
use protosocket.Spillway.Race
use protosocket.Spillway.Race.Whole.{
  is_registered, whole, free_cell, free_cells, free_cells-set, length-free_cells,
  get_elem?-free_cells,
}

module _ {ℓ} {T : Type ℓ} where
  abbrev pub with_shared : Receiver T → Shared T → Receiver T
  with_shared r s = record r { shared = s }

  abbrev pub with_chute : Shared T → ℕ → Chute T → Shared T
  with_chute s i c = record s { chutes = set s.chutes i c }

  module _ (r : Receiver T) (i : ℕ) (c : Chute T) (values : List T)
      (at : get_elem? r.shared.chutes i ≡ some c) where
    abbrev pub full_chute : Chute T
    full_chute = record c { queue = c.queue ++ values }

    abbrev pub dirty_chute : Chute T
    dirty_chute = record { queue = c.queue ++ values; clean = false }

    pub behind :
        (length c.queue == 0) ≡ false
        → send_many_infallible r.shared i values ≡ some (with_chute r.shared i full_chute)
    unfolding send_many_infallible Chute.send_many
    behind e = ground (arith, at, e)

    pub first_in :
        (length c.queue == 0) ≡ true
        → send_many_infallible r.shared i values ≡ some (notify (with_chute r.shared i dirty_chute))
    unfolding send_many_infallible Chute.send_many
    first_in e = ground (arith, at, e)

    module _ {n : ℕ} {p : Place} {scheduled : Bool} (h : Reach n p (whole r scheduled))
        (some_sender : 0 < r.shared.senders) where
      abbrev cells : List (Cell T)
      cells = free_cells r.shared.chutes

      abbrev with_cells : List (Cell T) → Race T
      with_cells cs = record (whole r scheduled) { cells = cs }

      extended_Reach : Reach n p (with_cells (set cells i (extend (free_cell c) values)))
      extended_Reach = sent h (
          extend_step i (free_cell c) values some_sender
            (get_elem?-free_cells r.shared.chutes i c at) refl)

      pub behind_Reach :
          (length c.queue == 0) ≡ false
          → Reach n p (whole (with_shared r (with_chute r.shared i full_chute)) scheduled)
      unfolding extend
      behind_Reach e =
          subst (λ cs. Reach n p (with_cells cs))
            (ground (arith, e, free_cells-set r.shared.chutes i full_chute)) extended_Reach

      inside : i < length cells
      inside = omega (arith, get_elem?-lt r.shared.chutes i at, length-free_cells r.shared.chutes)

      pub first_in_Reach :
          (length c.queue == 0) ≡ true
          → Reach n p (
              whole
                (with_shared r (notify (with_chute r.shared i dirty_chute)))
                (scheduled || is_registered r.shared.waker))
      unfolding extend mark release Race.wake notify
      first_in_Reach e =
          let c1 : Cell T = record { chute = full_chute; holder = extended } in
          let c2 : Cell T = record { chute = dirty_chute; holder = marked } in
          let s1 : Reach n p (with_cells (set cells i c1)) =
            subst (λ cs. Reach n p (with_cells cs)) (ground (arith, e)) extended_Reach in
          let s2 : Reach n p (with_cells (set cells i c2)) =
            subst (λ cs. Reach n p (with_cells cs)) (set-set cells i c1 c2)
              (sent s1 (mark_step i c1 (get_elem?-set_self cells i c1 inside) refl)) in
          subst
            (λ cs. Reach n p (record (whole r (scheduled || is_registered r.shared.waker)) {
              cells = cs;
              registered = false;
            }))
            (set-set cells i c2 (free_cell dirty_chute)
              ∙ sym (free_cells-set r.shared.chutes i dirty_chute))
            (sent s2 (wake_step i c2 (get_elem?-set_self cells i c2 inside) refl))
