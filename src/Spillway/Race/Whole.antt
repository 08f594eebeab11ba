-- ===== src/Spillway/Race/Whole.antt =====
-- The states of Race between whole operations (spillway/src/receiver.rs, spillway/src/shared.rs).
use protosocket.Prelude.{
  ℕ, zero, suc, ◌≡◌, refl, ap, Bool, true, false, List, [], ◌∷◌, length, get_elem?, set, some,
  arith,
}
use protosocket.Spillway.Chute.{Chute}
use protosocket.Spillway.Shared
use protosocket.Spillway.Shared.{WakerCall, register, wake, find_dirty, race_find_dirty}
use protosocket.Spillway.Receiver.{Receiver}
use protosocket.Spillway.Race.{free, Cell, Race, is_dirty}

-- What is left of the calls of the `AtomicWaker`: `wake` takes what was registered.
abbrev pub is_registered : List WakerCall → Bool
is_registered [] = false
is_registered (register ∷ _) = true
is_registered (wake ∷ _) = false

module _ {ℓ} {T : Type ℓ} where
  -- The chutes with no sender in any of them.
  abbrev pub free_cell : Chute T → Cell T
  free_cell c = record { chute = c; holder = free }

  abbrev pub free_cells : List (Chute T) → List (Cell T)
  free_cells [] = []
  free_cells (c ∷ cs) = free_cell c ∷ free_cells cs

  -- The state between whole operations.
  abbrev pub whole : Receiver T → Bool → Race T
  whole r scheduled = record {
    cells = free_cells r.shared.chutes;
    senders = r.shared.senders;
    leaving = false;
    registered = is_registered r.shared.waker;
    scheduled = scheduled;
    cursor = r.cursor;
    buffer = r.buffer;
  }

  pub length-free_cells : (cs : List (Chute T)) → length (free_cells cs) ≡ length cs
  length-free_cells [] = refl
  length-free_cells (c ∷ cs) = ap suc (length-free_cells cs)

  pub get_elem?-free_cells :
      (cs : List (Chute T)) (i : ℕ) (c : Chute T)
      → get_elem? cs i ≡ some c
      → get_elem? (free_cells cs) i ≡ some (free_cell c)
  get_elem?-free_cells [] i c e = absurd (ground (arith, e))
  get_elem?-free_cells (d ∷ cs) zero c e = ground (arith, e)
  get_elem?-free_cells (d ∷ cs) (suc i) c e = get_elem?-free_cells cs i c e

  pub is_dirty-free_cells :
      (cs : List (Chute T)) (i : ℕ) → is_dirty (get_elem? (free_cells cs) i) ≡ Shared.is_dirty cs i
  is_dirty-free_cells [] i = refl
  is_dirty-free_cells (d ∷ cs) zero = refl
  is_dirty-free_cells (d ∷ cs) (suc i) = is_dirty-free_cells cs i

  pub free_cells-set :
      (cs : List (Chute T)) (i : ℕ) (c : Chute T)
      → free_cells (set cs i c) ≡ set (free_cells cs) i (free_cell c)
  free_cells-set [] i c = refl
  free_cells-set (d ∷ cs) zero c = refl
  free_cells-set (d ∷ cs) (suc i) c = ap (λ l. free_cell d ∷ l) (free_cells-set cs i c)
