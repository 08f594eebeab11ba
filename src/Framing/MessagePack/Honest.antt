-- ===== src/Framing/MessagePack/Honest.antt =====
-- The MessagePack decoder is honest about lengths, but for one wrap
-- (protosocket-messagepack/src/decoder.rs).
use protosocket.Prelude.{
  ℕ, ◌+◌, ◌-◌, ◌^◌, ◌≤◌, ◌<◌, ◌≡◌, inl, inr, subst, ltb, Bool-cases, Option-cases, List, [], length,
  drop, some, arith, length-drop,
}
use protosocket.Prelude.Word.{add32}
use protosocket.Codec.{
  Encoder, Decoded, message, refused, incomplete_buffer, invalid_buffer, skip_message,
}
use protosocket.Connection.Receive.Consumes.{IsHonest}
use protosocket.Framing.MessagePack.{
  MessagePack, State, waiting, reading_length, decode_message, decode_body, decode, decoder,
}

-- What rmp and rmp_serde consume: five bytes of a length, and at least one of a message.
pub record IsReading {M : Type 0} (rmp : MessagePack M) : Type 0 where
  pub u32_takes :
      (bytes rest : List ℕ) (n : ℕ)
      → rmp.read_u32 bytes ≡ some (n, rest)
      → length rest + 5 ≡ length bytes
  pub message_takes :
      (bytes rest : List ℕ) (m : M)
      → rmp.from_read bytes ≡ some (m, rest)
      → length rest < length bytes

module _ {M : Type 0} (rmp : MessagePack M) (law : IsReading rmp) where
  -- The answer is honest about a buffer of that length.
  abbrev Fair : ℕ → Decoded M → Type 0
  Fair size (message n m) = (0 < n) × (n ≤ size)
  Fair size (refused (incomplete_buffer n)) = size < n
  Fair size (refused (skip_message n)) = ⊥
  Fair size (refused invalid_buffer) = Unit {0}

  decode_message-Fair :
      (size : ℕ) (reader : List ℕ)
      → length reader ≤ size
      → Fair size (decode_message rmp size reader).1
  unfolding decode_message
  decode_message-Fair size reader le = elim (Option-cases (rmp.from_read reader)) [
    | inl e ↦ rw e tt
    | inr ((m, rest), e) ↦
        rw e (omega (arith, le, law.message_takes reader rest m e), omega (arith, le))
  ]

  decode_body-Fair :
      (size n : ℕ) (reader : List ℕ)
      → length reader ≤ size
      → Fair size (decode_body rmp size n reader).1
  unfolding decode_body
  decode_body-Fair size n reader le = elim (Bool-cases (ltb size (add32 n 5))) [
    | inl short ↦ rw short (ground (arith, short))
    | inr enough ↦ rw enough (decode_message-Fair size reader le)
  ]

  decode-Fair : (s : State) (bytes : List ℕ) → Fair (length bytes) (decode rmp s bytes).1
  unfolding decode
  decode-Fair (reading_length n) bytes =
      decode_body-Fair (length bytes) n (drop 5 bytes) (omega (arith, length-drop 5 bytes))
  decode-Fair waiting bytes = elim (Bool-cases (ltb (length bytes) 5)) [
    | inl short ↦ rw short (ground (arith, short))
    | inr enough ↦ elim (Option-cases (rmp.read_u32 bytes)) [
      | inl e ↦ rw enough (rw e tt)
      | inr ((n, rest), e) ↦ rw enough (
          rw e
            (decode_body-Fair (length bytes) n rest (omega (arith, law.u32_takes bytes rest n e))))
    ]
  ]

  -- A connection with this decoder can rely on it: a message takes at least one byte and no more than
  -- there are, and an incomplete buffer is asked for with a size that is above what is there.
  pub decoder-IsHonest :
      {O B : Type 0} (encoder : Encoder State O B) (max : ℕ)
      → IsHonest (record { decoder = decoder rmp; encoder = encoder }) max
  unfolding decoder
  decoder-IsHonest encoder max = record {
    takes = λ d d' bytes n m e. subst (λ o. Fair (length bytes) (o.1)) e (decode-Fair d bytes);
    skips =
        λ d d' bytes n e. absurd (subst (λ o. Fair (length bytes) (o.1)) e (decode-Fair d bytes));
    asks = λ d d' bytes n e. subst (λ o. Fair (length bytes) (o.1)) e (decode-Fair d bytes);
  }

-- A length of 2 ^ 32 - 5 or more wraps in `length + 5`: with the bytes of the length alone, the
-- decoder does not ask for the rest of the message, but goes on to read it from the nothing that is
-- left.
wrapped_length :
    {M : Type 0} (rmp : MessagePack M) (bytes : List ℕ) (n : ℕ)
    → length bytes ≡ 5
    → 2 ^ 32 - 5 ≤ n
    → n < 2 ^ 32
    → rmp.read_u32 bytes ≡ some (n, [])
    → decode rmp waiting bytes ≡ decode_message rmp 5 []
unfolding decode decode_body
wrapped_length rmp bytes n len large small e = ground (arith, len, large, small, e)
