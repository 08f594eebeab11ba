-- ===== src/Buffers/Pooling.antt =====
-- Reusing buffers changes nothing on the wire (protosocket-connection/src/pooled_encoder.rs).
use protosocket.Prelude.{ℕ, ◌≤◌, ◌≡◌, refl, ap, ◌∙◌, List, [], ◌∷◌, length, arith}
use protosocket.Buffers.OwnedBuffer
use protosocket.Buffers.OwnedBuffer.{OwnedBuffer}
use protosocket.Buffers.Reusable
use protosocket.Buffers.Reusable.{Reusable}
use protosocket.Buffers.PooledEncoder
use protosocket.Buffers.PooledEncoder.{PooledEncoder, Serialize, pop, set_len_zero, raw_encode}

-- What a connection does with its encoder.
pub data Use (M : Type 0) : Type 0 where
  encodes : M → Use M
  returns : Reusable → Use M

module _ {S M : Type 0} (s : Serialize S M) where
  -- The bytes that come out of a sequence of uses.
  abbrev pub pooled_bytes : PooledEncoder S → List (Use M) → PooledEncoder S × List (List ℕ)
  pooled_bytes e [] = (e, [])
  pooled_bytes e (encodes m ∷ us) =
      let (e', buffer) = PooledEncoder.encode s e m in
      let (e'', rest) = pooled_bytes e' us in (e'', Reusable.chunk buffer ∷ rest)
  pooled_bytes e (returns b ∷ us) = pooled_bytes (PooledEncoder.return_buffer e b) us

  -- The same messages through the encoder without a pool.
  abbrev pub raw_bytes : S → List (Use M) → S × List (List ℕ)
  raw_bytes z [] = (z, [])
  raw_bytes z (encodes m ∷ us) =
      let (z', buffer) = raw_encode s z m in
      let (z'', rest) = raw_bytes z' us in (z'', OwnedBuffer.chunk buffer ∷ rest)
  raw_bytes z (returns b ∷ us) = raw_bytes z us

  -- Pooled buffers are empty, and there are not too many of them.
  abbrev AllEmpty : List (List ℕ) → Type 0
  AllEmpty [] = Unit {0}
  AllEmpty (b ∷ bs) = (b ≡ []) × AllEmpty bs

  pub record IsClean (e : PooledEncoder S) : Type 0 where
    pub empty : AllEmpty e.buffer_pool
    pub bounded : length e.buffer_pool ≤ e.max_pooled

  pop-AllEmpty :
      (pool : List (List ℕ))
      → AllEmpty pool
      → ((pop pool).0 ≡ []) × AllEmpty (pop pool).1 × (length (pop pool).1 ≤ length pool)
  pop-AllEmpty [] h = (refl, tt, omega arith)
  pop-AllEmpty (b ∷ bs) (e, h) = (e, h, omega arith)

  abbrev pub Matches : PooledEncoder S × List (List ℕ) → S × List (List ℕ) → ℕ → Type 0
  Matches (e, pooled_out) (z, raw_out) max =
      (pooled_out ≡ raw_out) × (e.serializer ≡ z) × IsClean e × (e.max_pooled ≡ max)

  encode_step :
      (e : PooledEncoder S) (m : M)
      → IsClean e
      → (Reusable.chunk (PooledEncoder.encode s e m).1
          ≡ OwnedBuffer.chunk (raw_encode s e.serializer m).1)
        × ((PooledEncoder.encode s e m).0.serializer ≡ (raw_encode s e.serializer m).0)
        × IsClean (PooledEncoder.encode s e m).0
        × ((PooledEncoder.encode s e m).0.max_pooled ≡ e.max_pooled)
  unfolding PooledEncoder.encode raw_encode Reusable.chunk OwnedBuffer.chunk Reusable.new
      OwnedBuffer.new
  encode_step e m h =
      let (first, rest, fewer) = pop-AllEmpty e.buffer_pool h.empty in
      let same = ap (s.serialize_into_buffer e.serializer m) first in
      (
        ap (λ o. o.1) same,
        ap (λ o. o.0) same,
        record { empty = rest; bounded = omega (arith, fewer, h.bounded) },
        refl,
      )

  return_step :
      (e : PooledEncoder S) (b : Reusable)
      → IsClean e
      → ((PooledEncoder.return_buffer e b).serializer ≡ e.serializer)
        × IsClean (PooledEncoder.return_buffer e b)
        × ((PooledEncoder.return_buffer e b).max_pooled ≡ e.max_pooled)
  unfolding PooledEncoder.return_buffer
  return_step e b h = ground (arith, h.empty, h.bounded)

  -- A pooled encoder whose pool is clean gives, for any sequence of messages and of buffers returned
  -- in between, whatever those hold, the bytes that the encoder without a pool gives. It ends in
  -- the same serializer, with its pool clean: all buffers empty, and at most `max_pooled` of them.
  pub pooled_bytes-raw_bytes :
      (e : PooledEncoder S) (us : List (Use M))
      → IsClean e
      → Matches (pooled_bytes e us) (raw_bytes e.serializer us) e.max_pooled
  pooled_bytes-raw_bytes e [] h = (refl, refl, h, refl)
  pooled_bytes-raw_bytes e (encodes m ∷ us) h =
      let (bytes, same, clean, max) = encode_step e m h in
      let e' = (PooledEncoder.encode s e m).0 in
      let (out, ends, clean', max') = pooled_bytes-raw_bytes e' us clean in
      let moved = ap (λ z. raw_bytes z us) same in
      (
        ap (λ l. l ∷ (pooled_bytes e' us).1) bytes
            ∙ ap (λ l. OwnedBuffer.chunk (raw_encode s e.serializer m).1 ∷ l)
                (out ∙ ap (λ o. o.1) moved),
        ends ∙ ap (λ o. o.0) moved,
        clean',
        max' ∙ max,
      )
  pooled_bytes-raw_bytes e (returns b ∷ us) h =
      let (same, clean, max) = return_step e b h in
      let e' = PooledEncoder.return_buffer e b in
      let (out, ends, clean', max') = pooled_bytes-raw_bytes e' us clean in
      let moved = ap (λ z. raw_bytes z us) same in
      (out ∙ ap (λ o. o.1) moved, ends ∙ ap (λ o. o.0) moved, clean', max' ∙ max)

  -- A new encoder's pool is clean.
  pub new-IsClean : (z : S) → IsClean (PooledEncoder.new z)
  unfolding PooledEncoder.new
  new-IsClean z = record { empty = tt; bounded = omega arith }
