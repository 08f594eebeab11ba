-- ===== src/SendBudget.antt =====
-- protosocket-connection/src/send_budget.rs: a bounded lease on the send buffer of a connection.
use protosocket.Prelude.{
  ℕ, suc, ◌+◌, ◌-◌, ◌≡◌, sym, ap, ◌∙◌, if◌then◌else◌, ◌==◌, List, [], ◌∷◌, ◌++◌, length, Option,
  none, some, arith, append-nil, append_assoc, length-append,
}
use protosocket.Codec.{Encoder}

pub record SendBudget (D B : Type 0) : Type 0 where
  pub encoder : D
  pub send_buffer : List B
  pub remaining : ℕ

-- A permit is the budget that it was reserved from.
pub record SendPermit (D B : Type 0) : Type 0 where
  pub budget : SendBudget D B

module _ {D B : Type 0} where
  unfoldable pub new : D → List B → ℕ → SendBudget D B
  new encoder send_buffer remaining = record {
    encoder = encoder;
    send_buffer = send_buffer;
    remaining = remaining;
  }

  unfoldable pub reserve : SendBudget D B → Option (SendPermit D B)
  reserve b = if b.remaining == 0 then none else some (record { budget = b })

module _ {D B M : Type 0} (e : Encoder D M B) where
  -- A permit is given only with `remaining` above 0, so that the subtraction is exact.
  unfoldable pub send : SendPermit D B → M → SendBudget D B
  send p m =
      let (encoder, buffer) = e.encode p.budget.encoder m in
      record {
        encoder = encoder;
        send_buffer = p.budget.send_buffer ++ buffer ∷ [];
        remaining = p.budget.remaining - 1;
      }

  pub send-remaining :
      (b : SendBudget D B) (p : SendPermit D B) (m : M)
      → reserve b ≡ some p
      → (buffer : B) × ((send p m).send_buffer ≡ b.send_buffer ++ buffer ∷ [])
        × (suc (send p m).remaining ≡ b.remaining)
  unfolding reserve send
  send-remaining b p m h = ((e.encode b.encoder m).1, ground (arith, h), ground (arith, h))

  -- What a holder of the budget can do with it: its fields are private.
  pub data Spends (b : SendBudget D B) : SendBudget D B → Type 0 where
    kept : Spends b b
    sent :
        {b' : SendBudget D B}
        → Spends b b'
        → (p : SendPermit D B) → reserve b' ≡ some p
        → (m : M) (b'' : SendBudget D B) → b'' ≡ send p m
        → Spends b b''

  -- A spent budget has its new buffers behind the old ones, one for each unit that is gone.
  pub Spends-send_buffer :
      {b b' : SendBudget D B}
      → Spends b b'
      → (added : List B) × (b'.send_buffer ≡ b.send_buffer ++ added)
        × (length added + b'.remaining ≡ b.remaining)
  Spends-send_buffer {b = b} kept = ([], sym (append-nil b.send_buffer), omega arith)
  Spends-send_buffer {b = b} (sent {b' = b'} s p r m b'' e) =
      let (added, back, count) = Spends-send_buffer s in
      let (buffer, one, less) = send-remaining b' p m r in
      (
        added ++ buffer ∷ [],
        ap (λ x. x.send_buffer) e
            ∙ one
            ∙ ap (λ l. l ++ buffer ∷ []) back
            ∙ append_assoc b.send_buffer added (buffer ∷ []),
        omega (arith, ap (λ x. x.remaining) e, less, count, length-append added (buffer ∷ [])),
      )
