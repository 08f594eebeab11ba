-- ===== src/Prelude/Assoc.antt =====
-- Maps from numbers as association lists, for the hash maps of the program.
use Prim.Native.Nat.{ℕ}
use mathlib.Core.Path.{◌≡◌, refl, sym, ap, ◌∙◌}
use mathlib.Core.Logic.{◌≢◌, inl, inr}
use mathlib.Core.List.{List, [], ◌∷◌}
use mathlib.Core.Option.{Option, none, some}
use native.Mathlib.Omega.{arith}
use protosocket.Prelude.Tests.{if◌then◌else◌, ◌==◌, ==_iff, Bool-cases}

module _ {ℓ} {V : Type ℓ} where
  abbrev pub lookup : List (ℕ × V) → ℕ → Option V
  lookup [] k = none
  lookup ((k', v) ∷ kvs) k = let rest = lookup kvs k in if k' == k then some v else rest

  -- The key is bound to nothing.
  abbrev pub remove : List (ℕ × V) → ℕ → List (ℕ × V)
  remove [] k = []
  remove ((k', v) ∷ kvs) k = let rest = remove kvs k in if k' == k then rest else (k', v) ∷ rest

  -- The key is bound to the value, and to no other.
  abbrev pub insert : List (ℕ × V) → ℕ → V → List (ℕ × V)
  insert kvs k v = (k, v) ∷ remove kvs k

  pub lookup-remove_self : (kvs : List (ℕ × V)) (k : ℕ) → lookup (remove kvs k) k ≡ none
  lookup-remove_self [] k = refl
  lookup-remove_self ((k', v) ∷ kvs) k = ground (arith, lookup-remove_self kvs k)

  pub lookup-remove_ne :
      (kvs : List (ℕ × V)) (k k' : ℕ) → k ≢ k' → lookup (remove kvs k) k' ≡ lookup kvs k'
  lookup-remove_ne [] k k' ne = refl
  lookup-remove_ne ((j, v) ∷ kvs) k k' ne = ground (arith, ne, lookup-remove_ne kvs k k' ne)

  pub lookup-insert_self : (kvs : List (ℕ × V)) (k : ℕ) (v : V) → lookup (insert kvs k v) k ≡ some v
  lookup-insert_self kvs k v = ground arith

  pub lookup-insert_ne :
      (kvs : List (ℕ × V)) (k k' : ℕ) (v : V) → k ≢ k' → lookup (insert kvs k v) k' ≡ lookup kvs k'
  lookup-insert_ne kvs k k' v ne = ground (arith, ne, lookup-remove_ne kvs k k' ne)

  pub lookup-remove-some :
      (kvs : List (ℕ × V)) (k k' : ℕ) (v : V)
      → lookup (remove kvs k) k' ≡ some v
      → lookup kvs k' ≡ some v
  lookup-remove-some kvs k k' v e = elim (Bool-cases (k == k')) [
    | inl same ↦
        let gone = ap (lookup (remove kvs k)) ((==_iff k k').0 same) in
        absurd (ground (arith, sym gone ∙ lookup-remove_self kvs k, e))
    | inr other ↦ sym (lookup-remove_ne kvs k k' (λ f. ground (arith, other, f))) ∙ e
  ]
