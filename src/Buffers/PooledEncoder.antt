-- ===== src/Buffers/PooledEncoder.antt =====
-- protosocket-connection/src/pooled_encoder.rs: Serialize and PooledEncoder, and the encoder that
-- protosocket-connection/src/encoding.rs makes of a serializer.
use protosocket.Prelude.{ℕ, if◌then◌else◌, ltb, List, [], ◌∷◌, length}
use protosocket.Codec.{Encoder}
use protosocket.Buffers.OwnedBuffer
use protosocket.Buffers.OwnedBuffer.{OwnedBuffer}
use protosocket.Buffers.Reusable
use protosocket.Buffers.Reusable.{Reusable}

-- `Serialize`: the buffer goes in, and comes back with the message in it.
pub record Serialize (S M : Type 0) : Type 0 where
  pub serialize_into_buffer : S → M → List ℕ → S × List ℕ

pub record PooledEncoder (S : Type 0) : Type 0 where
  pub serializer : S
  pub buffer_pool : List (List ℕ)
  pub max_pooled : ℕ

unfoldable pub new_with_pool_size : {S : Type 0} → ℕ → S → PooledEncoder S
new_with_pool_size pool_size serializer = record {
  serializer = serializer;
  buffer_pool = [];
  max_pooled = pool_size;
}

unfoldable pub new : {S : Type 0} → S → PooledEncoder S
unfolding new_with_pool_size
new serializer = new_with_pool_size 8 serializer

-- `Vec::pop`: the head of the list is the end of the pool.
abbrev pub pop : List (List ℕ) → List ℕ × List (List ℕ)
pop [] = ([], [])
pop (buffer ∷ pool) = (buffer, pool)

unfoldable pub encode :
    {S M : Type 0} → Serialize S M → PooledEncoder S → M → PooledEncoder S × Reusable
unfolding Reusable.new
encode s e message =
    let (buffer, pool) = pop e.buffer_pool in
    let (serializer, bytes) = s.serialize_into_buffer e.serializer message buffer in
    (record e { serializer = serializer; buffer_pool = pool }, Reusable.new bytes)

-- `set_len(0)`
abbrev pub set_len_zero : List ℕ → List ℕ
set_len_zero bytes = []

unfoldable pub return_buffer : {S : Type 0} → PooledEncoder S → Reusable → PooledEncoder S
return_buffer e buffer =
    if ltb (length e.buffer_pool) e.max_pooled
    then record e { buffer_pool = set_len_zero buffer.inner ∷ e.buffer_pool }
    else e

module _ {S M : Type 0} (s : Serialize S M) where
  -- `impl<T: Serialize> Encoder for T`
  unfoldable pub raw_encode : S → M → S × OwnedBuffer
  unfolding OwnedBuffer.new
  raw_encode serializer message =
      let (serializer', bytes) = s.serialize_into_buffer serializer message [] in
      (serializer', OwnedBuffer.new bytes)

  unfoldable pub pooled : Encoder (PooledEncoder S) M Reusable
  pooled = record { encode = encode s; return_buffer = return_buffer }
