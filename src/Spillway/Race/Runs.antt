-- ===== src/Spillway/Race/Runs.antt =====
-- Steps of the receiver in Race, and the look for a dirty chute when no sender comes between
-- (spillway/src/shared.rs, race_find_dirty).
use protosocket.Prelude.{
  ℕ, zero, suc, ◌+◌, ◌%◌, ◌≡◌, inl, inr, ap, subst, ◌∙◌, Bool-cases, List, length, get_elem?,
  Option, none, some, arith,
}
use protosocket.Spillway.Chute.{Chute}
use protosocket.Spillway.Shared
use protosocket.Spillway.Shared.{WakerCall, register, wake, find_dirty, race_find_dirty}
use protosocket.Spillway.Race.Whole.{free_cells, length-free_cells, is_dirty-free_cells}
use protosocket.Spillway.Race.{Race, Place, taking, is_dirty, look, receive}

-- Where a look goes that ends with `found`.
abbrev pub look_ends : Option ℕ → Place → Place
look_ends none over = over
look_ends (some k) over = taking k

module _ {ℓ} {T : Type ℓ} where
  -- Steps of the receiver, with no sender between them.
  pub data Runs : Place → Race T → Place → Race T → Type ℓ where
    stop : {p : Place} {s : Race T} → Runs p s p s
    step :
        {p q r : Place} {s t u : Race T} → receive p s ≡ some (q, t) → Runs q t r u → Runs p s r u

  pub Runs-trans : {p q r : Place} {s t u : Race T} → Runs p s q t → Runs q t r u → Runs p s r u
  Runs-trans stop more = more
  Runs-trans (step e rest) more = step e (Runs-trans rest more)

  module _ (chutes : List (Chute T)) (s : Race T) (same : s.cells ≡ free_cells chutes)
      (again : ℕ → Place) (over : Place)
      (steps : (i : ℕ) → receive (again i) s ≡ some (look s i again over, s)) where
    looks : (i : ℕ) (q : Place) → look s i again over ≡ q → Runs (again i) s q s
    looks i q e = step (steps i ∙ ap (λ p. some (p, s)) e) stop

    many : length s.cells ≡ length chutes
    many = ap length same ∙ length-free_cells chutes

    seen :
        (i : ℕ)
        → is_dirty (get_elem? s.cells ((s.cursor + i) % length s.cells))
          ≡ Shared.is_dirty chutes ((s.cursor + i) % length chutes)
    seen i =
        ap (λ n. is_dirty (get_elem? s.cells ((s.cursor + i) % n))) many
        ∙ ap (λ l. is_dirty (get_elem? l ((s.cursor + i) % length chutes))) same
        ∙ is_dirty-free_cells chutes ((s.cursor + i) % length chutes)

    next : (i : ℕ) → suc i ≡ i + 1
    next i = omega arith

    -- A look finds what `race_find_dirty` finds.
    pub look-Runs :
        (left i : ℕ)
        → i + left ≡ length chutes
        → Runs (again i) s (look_ends (find_dirty chutes s.cursor i left) over) s
    unfolding find_dirty look
    look-Runs zero i e = looks i over (ground (arith, many, e))
    look-Runs (suc left) i e =
        let at = (s.cursor + i) % length chutes in
        elim (Bool-cases (Shared.is_dirty chutes at)) [
          | inl dirty ↦ rw dirty (looks i (taking at) (ground (arith, many, e, seen i, dirty)))
          | inr clean ↦ rw clean (
              Runs-trans (looks i (again (suc i)) (ground (arith, many, e, seen i, clean))) (
                subst
                  (λ n.
                    Runs (again (suc i)) s (look_ends (find_dirty chutes s.cursor n left) over) s)
                  (next i) (look-Runs left (suc i) (omega (arith, e)))))
        ]
