-- ===== src/Codec.antt =====
-- The traits of protosocket-connection: encoding.rs, error.rs and message_reactor.rs, and the parts
-- of tokio's and bytes' traits that a connection calls.
use protosocket.Prelude.{ℕ, List}

-- `DeserializeError`
pub data DeserializeError : Type 0 where
  incomplete_buffer : ℕ → DeserializeError  -- next_message_size
  invalid_buffer : DeserializeError
  skip_message : ℕ → DeserializeError  -- distance

-- The result of `Decoder::decode`: how many bytes the message took, and the message.
pub data Decoded (M : Type 0) : Type 0 where
  message : ℕ → M → Decoded M
  refused : DeserializeError → Decoded M

-- `Decoder`. Bytes are numbers.
pub record Decoder (D M : Type 0) : Type 0 where
  pub decode : D → List ℕ → D × Decoded M

-- `Encoder`, with the type of its buffers.
pub record Encoder (D M B : Type 0) : Type 0 where
  pub encode : D → M → D × B
  pub return_buffer : D → B → D

-- `Codec`
pub record Codec (D I O B : Type 0) : Type 0 where
  pub decoder : Decoder D I
  pub open decoder use *
  pub encoder : Encoder D O B
  pub open encoder use *

-- The implementation of `Codec` for a pair of an encoder and a decoder.
module _ {E D I O B : Type 0} (e : Encoder E O B) (d : Decoder D I) where
  pair_decode : E × D → List ℕ → (E × D) × Decoded I
  pair_decode (s, t) bytes = let (t', out) = d.decode t bytes in ((s, t'), out)

  pair_encode : E × D → O → (E × D) × B
  pair_encode (s, t) m = let (s', b) = e.encode s m in ((s', t), b)

  pair_return_buffer : E × D → B → E × D
  pair_return_buffer (s, t) b = (e.return_buffer s b, t)

  unfoldable pub pair_codec : Codec (E × D) I O B
  unfolding pair_decode pair_encode pair_return_buffer
  pair_codec = record {
    decoder = record { decode = pair_decode };
    encoder = record { encode = pair_encode; return_buffer = pair_return_buffer };
  }

-- `ReactorStatus`
pub data ReactorStatus : Type 0 where
  go_on disconnect : ReactorStatus

-- The kinds of `std::io::Error` that a connection tells apart.
pub data IoError : Type 0 where
  would_block interrupted other : IoError
