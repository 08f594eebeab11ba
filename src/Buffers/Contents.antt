-- ===== src/Buffers/Contents.antt =====
-- The buffers of both encoders are contiguous, each with its `Buf`.
use protosocket.Prelude.{
  ℕ, ◌+◌, ◌-◌, ◌≤◌, ◌≡◌, inl, inr, sym, ap, leb, ◌==◌, Bool-cases, length, drop, arith, length-drop,
  drop_all, drop-drop,
}
use protosocket.Buffers.OwnedBuffer
use protosocket.Buffers.OwnedBuffer.{OwnedBuffer, owned_buf}
use protosocket.Buffers.Reusable
use protosocket.Buffers.Reusable.{Reusable, reusable_buf}
use protosocket.Connection.Send.Wire.{OneChunk, IsContiguous}

reusable_chunks :
    (b : Reusable) (slots : ℕ)
    → OneChunk (Reusable.chunk b) slots (Reusable.chunks_vectored b slots)
unfolding Reusable.chunks_vectored Reusable.chunk
reusable_chunks b slots = elim (Bool-cases (slots == 0)) [
  | inl z ↦ inr (ground (arith, z), inl (ground (arith, z)))
  | inr nz ↦ elim (Bool-cases (b.cursor == length b.inner)) [
    | inl e ↦ inr (ground (arith, nz, e), inr (drop_all b.cursor b.inner (ground (arith, e))))
    | inr e ↦ inl (ground (arith, nz, e), ground (arith, nz))
  ]
]

owned_chunks :
    (b : OwnedBuffer) (slots : ℕ)
    → OneChunk (OwnedBuffer.chunk b) slots (owned_buf.chunks_vectored b slots)
unfolding owned_buf OwnedBuffer.chunk OwnedBuffer.remaining
owned_chunks b slots = elim (Bool-cases (slots == 0)) [
  | inl z ↦ inr (ground (arith, z), inl (ground (arith, z)))
  | inr nz ↦ elim (Bool-cases (length b.buffer - b.cursor == 0)) [
    | inl e ↦ inr (ground (arith, nz, e), inr (drop_all b.cursor b.buffer (ground (arith, e))))
    | inr e ↦ inl (ground (arith, nz, e), ground (arith, nz))
  ]
]

reusable_advance :
    (b : Reusable) (n : ℕ)
    → n ≤ length (Reusable.chunk b)
    → Reusable.chunk (reusable_buf.advance b n) ≡ drop n (Reusable.chunk b)
unfolding reusable_buf Reusable.advance Reusable.chunk
reusable_advance b n h = elim (Bool-cases (leb (b.cursor + n) (length b.inner))) [
  | inl e ↦ ground (arith, e, drop-drop n b.cursor b.inner)
  | inr e ↦
      let nothing : n ≡ 0 = ground (arith, e, h, length-drop b.cursor b.inner) in
      let same : drop b.cursor b.inner ≡ drop n (drop b.cursor b.inner) =
        ap (λ k. drop k (drop b.cursor b.inner)) (sym nothing) in
      ground (arith, e, same)
]

owned_advance :
    (b : OwnedBuffer) (n : ℕ)
    → n ≤ length (OwnedBuffer.chunk b)
    → OwnedBuffer.chunk (owned_buf.advance b n) ≡ drop n (OwnedBuffer.chunk b)
unfolding owned_buf OwnedBuffer.advance OwnedBuffer.chunk
owned_advance b n h = elim (Bool-cases (leb (b.cursor + n) (length b.buffer))) [
  | inl e ↦ ground (arith, e, drop-drop n b.cursor b.buffer)
  | inr e ↦
      let nothing : n ≡ 0 = ground (arith, e, h, length-drop b.cursor b.buffer) in
      let same : drop b.cursor b.buffer ≡ drop n (drop b.cursor b.buffer) =
        ap (λ k. drop k (drop b.cursor b.buffer)) (sym nothing) in
      ground (arith, e, same)
]

-- A pooled buffer is a `Buf` that stands for the bytes behind its cursor: its length, its advances
-- and its slices are those of these bytes.
pub reusable_buf-IsContiguous : IsContiguous reusable_buf Reusable.chunk
unfolding reusable_buf Reusable.remaining Reusable.chunk
reusable_buf-IsContiguous = record {
  remaining_length = λ b. sym (length-drop b.cursor b.inner);
  advance_drop = reusable_advance;
  one_chunk = reusable_chunks;
}

-- So is an owned buffer.
pub owned_buf-IsContiguous : IsContiguous owned_buf OwnedBuffer.chunk
unfolding owned_buf OwnedBuffer.remaining OwnedBuffer.chunk
owned_buf-IsContiguous = record {
  remaining_length = λ b. sym (length-drop b.cursor b.buffer);
  advance_drop = owned_advance;
  one_chunk = owned_chunks;
}
