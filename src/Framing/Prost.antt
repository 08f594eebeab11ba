-- ===== src/Framing/Prost.antt =====
-- protosocket-prost/src/decoder.rs and serializer.rs: messages behind a varint with their length.
pub mod Frames
use protosocket.Prelude.{ℕ, ◌-◌, if◌then◌else◌, ltb, List, length, Option, none, some}
use protosocket.Prelude.Word.{add64}
use protosocket.Codec.{Decoded, message, refused, incomplete_buffer, invalid_buffer, Decoder}
use protosocket.Buffers.PooledEncoder.{Serialize}

-- prost: a length delimiter, how many bytes it takes, and a message behind its delimiter. Decoding a
-- message gives what is behind it. Encoding appends to the buffer, and may fail.
pub record ProstMessage (M : Type 0) : Type 0 where
  pub decode_length_delimiter : List ℕ → Option ℕ
  pub length_delimiter_len : ℕ → ℕ
  pub decode_length_delimited : List ℕ → Option (M × List ℕ)
  pub encode_length_delimited : M → List ℕ → Option (List ℕ)

module _ {M : Type 0} (prost : ProstMessage M) where
  unfoldable pub decode_message : List ℕ → Decoded M
  decode_message buffer = elim (prost.decode_length_delimited buffer) [
    | none ↦ refused invalid_buffer
    | some (m, rest) ↦ message (length buffer - length rest) m
  ]

  unfoldable pub decode : Unit {0} → List ℕ → Unit {0} × Decoded M
  unfolding decode_message
  decode d buffer = (
    d,
    elim (prost.decode_length_delimiter buffer) [
      | none ↦ refused (incomplete_buffer 10)
      | some message_length ↦
          let framed_length = add64 message_length (prost.length_delimiter_len message_length) in
          if ltb (length buffer) framed_length
          then refused (incomplete_buffer framed_length)
          else decode_message buffer
    ],
  )

  unfoldable pub decoder : Decoder (Unit {0}) M
  decoder = record { decode = decode }

  -- An error of the encoder is logged, and the buffer stays as it is.
  unfoldable pub serialize_into_buffer : Unit {0} → M → List ℕ → Unit {0} × List ℕ
  serialize_into_buffer z m buffer =
      (z, elim (prost.encode_length_delimited m buffer) [ some encoded ↦ encoded | none ↦ buffer ])

  unfoldable pub serializer : Serialize (Unit {0}) M
  serializer = record { serialize_into_buffer = serialize_into_buffer }
