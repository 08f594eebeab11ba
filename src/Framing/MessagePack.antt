-- ===== src/Framing/MessagePack.antt =====
-- protosocket-messagepack/src/decoder.rs and serializer.rs: messages behind a length of five bytes.
pub mod RoundTrip
pub mod Honest
use protosocket.Prelude.{
  ℕ, ◌+◌, ◌-◌, ◌%◌, ◌^◌, if◌then◌else◌, ltb, List, ◌++◌, length, take, drop, replicate, Option,
  none, some,
}
use protosocket.Prelude.Word.{add32}
use protosocket.Codec.{Decoded, message, refused, incomplete_buffer, invalid_buffer, Decoder}
use protosocket.Buffers.PooledEncoder.{Serialize}

-- rmp and rmp_serde: a number in the five bytes of a MessagePack u32, and a message. Reading gives
-- what is behind it.
pub record MessagePack (M : Type 0) : Type 0 where
  pub read_u32 : List ℕ → Option (ℕ × List ℕ)
  pub write_u32 : ℕ → List ℕ
  pub from_read : List ℕ → Option (M × List ℕ)
  pub write : M → List ℕ

-- `State`
pub data State : Type 0 where
  waiting : State
  reading_length : ℕ → State

module _ {M : Type 0} (rmp : MessagePack M) where
  -- The message itself; the decoder waits again.
  unfoldable pub decode_message : ℕ → List ℕ → State × Decoded M
  decode_message start_remaining reader = (
    waiting,
    elim (rmp.from_read reader) [
      | none ↦ refused invalid_buffer
      | some (m, rest) ↦ message (start_remaining - length rest) m
    ],
  )

  -- The length is known; `reader` is what is behind it. A u32 wraps in a release build.
  unfoldable pub decode_body : ℕ → ℕ → List ℕ → State × Decoded M
  unfolding decode_message
  decode_body start_remaining size reader =
      if ltb start_remaining (add32 size 5)
      then (reading_length size, refused (incomplete_buffer (add32 size 5)))
      else decode_message start_remaining reader

  unfoldable pub decode : State → List ℕ → State × Decoded M
  unfolding decode_body
  decode waiting buffer =
      if ltb (length buffer) 5
      then (waiting, refused (incomplete_buffer 5))
      else elim (rmp.read_u32 buffer) [
        | none ↦ (waiting, refused invalid_buffer)
        | some (size, reader) ↦ decode_body (length buffer) size reader
      ]
  decode (reading_length size) buffer = decode_body (length buffer) size (drop 5 buffer)

  unfoldable pub decoder : Decoder State M
  decoder = record { decode = decode }

  -- The length is written over the first five bytes of the buffer. `len as u32 - 5` wraps.
  unfoldable pub serialize_into_buffer : Unit {0} → M → List ℕ → Unit {0} × List ℕ
  serialize_into_buffer z m buffer =
      let filled = buffer ++ replicate 5 0 ++ rmp.write m in
      let prefix = rmp.write_u32 ((length filled % 2 ^ 32 + 2 ^ 32 - 5) % 2 ^ 32) in
      (z, take (length filled) (prefix ++ drop (length prefix) filled))

  unfoldable pub serializer : Serialize (Unit {0}) M
  serializer = record { serialize_into_buffer = serialize_into_buffer }
