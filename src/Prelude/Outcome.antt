-- ===== src/Prelude/Outcome.antt =====
-- How a piece of code ends.
use mathlib.Core.Option.{Option, none, some}

-- `std::task::Poll`
pub data Poll {ℓ} (A : Type ℓ) : Type ℓ where
  ready : A → Poll A
  pending : Poll A

-- A loop on fuel returns, panics, or has used up its fuel.
pub data Run {ℓ} (A : Type ℓ) : Type ℓ where
  done : A → Run A
  panic : Run A
  starved : Run A

infixl 5 ◌>>=◌
abbrev pub ◌>>=◌ {ℓ κ} : {A : Type ℓ} {B : Type κ} → Run A → (A → Run B) → Run B
done a >>= f = f a
panic >>= f = panic
starved >>= f = starved

-- The value of a call that does not panic.
abbrev pub IsSome {ℓ} : {A : Type ℓ} → Option A → Type 0
IsSome none = ⊥
IsSome (some a) = Unit {0}

abbrev pub the {ℓ} : {A : Type ℓ} → (o : Option A) → IsSome o → A
the none absent = absurd absent
the (some a) here = a
