-- ===== src/Tests/Buffers.antt =====
-- A pooled encoder at a small input.
use protosocket.Prelude.{ℕ, ◌≡◌, refl, List, [], ◌∷◌, ◌++◌, length}
use protosocket.Buffers.Reusable
use protosocket.Buffers.Reusable.{Reusable}
use protosocket.Buffers.PooledEncoder
use protosocket.Buffers.PooledEncoder.{PooledEncoder, Serialize}
use protosocket.Buffers.Pooling.{
  Use, encodes, returns, pooled_bytes, raw_bytes, Matches, pooled_bytes-raw_bytes, new-IsClean,
}

abbrev framing : Serialize (Unit {0}) (List ℕ)
framing = record { serialize_into_buffer = λ z m buffer. (z, buffer ++ length m ∷ m) }

-- The second message is written into the buffer that the first one came back in.
abbrev uses : List (Use (List ℕ))
uses =
    encodes (7 ∷ [])
    ∷ returns (record { inner = 1 ∷ 7 ∷ []; cursor = 2 })
    ∷ encodes (8 ∷ 9 ∷ [])
    ∷ []

pooled_bytes-raw_bytes_example :
    Matches framing (pooled_bytes framing (PooledEncoder.new tt) uses) (raw_bytes framing tt uses) 8
unfolding PooledEncoder.new
pooled_bytes-raw_bytes_example =
    pooled_bytes-raw_bytes framing (PooledEncoder.new tt) uses (new-IsClean framing tt)

uses_run :
    (pooled_bytes framing (PooledEncoder.new tt) uses).1 ≡ (1 ∷ 7 ∷ []) ∷ (2 ∷ 8 ∷ 9 ∷ []) ∷ []
unfolding PooledEncoder.new PooledEncoder.encode PooledEncoder.return_buffer Reusable.chunk
uses_run = refl
