-- ===== src/Rpc/Message.antt =====
-- protosocket-rpc/src/message.rs: control codes, and what the framework asks of a message.
use protosocket.Prelude.{ℕ, ◌≡◌, refl, ◌<◌, ◌≤◌, arith, if◌then◌else◌, ◌==◌}

-- `ProtosocketControlCode`
pub data ProtosocketControlCode : Type 0 where
  normal cancel end : ProtosocketControlCode

unfoldable pub from_u8 : ℕ → ProtosocketControlCode
from_u8 value =
    if value == 0
    then normal
    else (if value == 1 then cancel else (if value == 2 then end else cancel))

unfoldable pub as_u8 : ProtosocketControlCode → ℕ
as_u8 normal = 0
as_u8 cancel = 1
as_u8 end = 2

-- `Message`
pub record Message (M : Type 0) : Type 0 where
  pub message_id : M → ℕ
  pub control_code : M → ProtosocketControlCode
  pub set_message_id : M → ℕ → M
  pub cancelled : ℕ → M
  pub ended : ℕ → M

-- A control code that is written and read is the same, and the byte that is written is below 3; a
-- byte that no code is written as is read as the code to cancel.
pub from_u8-as_u8 :
    ((c : ProtosocketControlCode) → (from_u8 (as_u8 c) ≡ c) × (as_u8 c < 3))
    × ((b : ℕ) → 3 ≤ b → from_u8 b ≡ cancel)
unfolding from_u8 as_u8
from_u8-as_u8 = (round_trip, λ b h. ground arith)
  where
    round_trip : (c : ProtosocketControlCode) → (from_u8 (as_u8 c) ≡ c) × (as_u8 c < 3)
    round_trip normal = (refl, omega arith)
    round_trip cancel = (refl, omega arith)
    round_trip end = (refl, omega arith)
