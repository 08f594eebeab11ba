-- ===== src/Framing/MessagePack/RoundTrip.antt =====
-- What is serialized is decoded again, in whatever pieces it arrives
-- (protosocket-messagepack/src/decoder.rs and serializer.rs).
use protosocket.Prelude.{
  ℕ, suc, ◌+◌, ◌-◌, ◌%◌, ◌^◌, ◌≤◌, ◌<◌, ◌≡◌, ◌⊎◌, inl, inr, refl, sym, ap, subst, ◌∙◌, ltb,
  Bool-cases, List, [], ◌∷◌, ◌++◌, length, take, drop, some, arith, append_assoc, length-append,
  length-take, take_all, drop-append_length, take-append_right,
}
use protosocket.Codec.{Decoded, message, refused, incomplete_buffer}
use protosocket.Framing.MessagePack.{
  MessagePack, State, waiting, reading_length, decode_message, decode_body, decode,
  serialize_into_buffer,
}

-- What rmp and rmp_serde document: what was written is read back, and a u32 takes five bytes.
pub record IsFaithful {M : Type 0} (rmp : MessagePack M) : Type 0 where
  pub length_bytes : (n : ℕ) → length (rmp.write_u32 n) ≡ 5
  pub reads_u32 :
      (n : ℕ) (rest : List ℕ) → n < 2 ^ 32 → rmp.read_u32 (rmp.write_u32 n ++ rest) ≡ some (n, rest)
  pub reads_message : (m : M) (rest : List ℕ) → rmp.from_read (rmp.write m ++ rest) ≡ some (m, rest)

module _ {M : Type 0} (rmp : MessagePack M) (law : IsFaithful rmp) (m : M)
    (small : length (rmp.write m) + 5 < 2 ^ 32) where
  abbrev size : ℕ
  size = length (rmp.write m)

  abbrev frame : List ℕ
  frame = rmp.write_u32 size ++ rmp.write m

  length-frame : length frame ≡ size + 5
  length-frame =
      omega (arith, length-append (rmp.write_u32 size) (rmp.write m), law.length_bytes size)

  abbrev zeros : List ℕ
  zeros = 0 ∷ 0 ∷ 0 ∷ 0 ∷ 0 ∷ rmp.write m

  serialized : (serialize_into_buffer rmp tt m []).1 ≡ frame
  unfolding serialize_into_buffer
  serialized =
      let prefix : (suc (suc (suc (suc (suc size)))) % 2 ^ 32 + 2 ^ 32 - 5) % 2 ^ 32 ≡ size =
        omega (arith, small) in
      ap
        (λ k.
          take (suc (suc (suc (suc (suc size)))))
            (rmp.write_u32 k ++ drop (length (rmp.write_u32 k)) zeros))
        prefix
      ∙ ap (λ k. take (suc (suc (suc (suc (suc size))))) (rmp.write_u32 size ++ drop k zeros))
          (law.length_bytes size)
      ∙ take_all (suc (suc (suc (suc (suc size))))) frame (omega (arith, length-frame))

  decode_whole :
      (reader rest bytes : List ℕ)
      → reader ≡ rmp.write m ++ rest
      → length bytes ≡ size + 5 + length rest
      → decode_body rmp (length bytes) size reader ≡ (waiting, message (size + 5) m)
  unfolding decode_body decode_message
  decode_whole reader rest bytes e len =
      let read = ap rmp.from_read e ∙ law.reads_message m rest in
      let taken : length bytes - length rest ≡ size + 5 = omega (arith, len) in
      ground (arith, small, len, read, taken)

  decode_part :
      (reader bytes : List ℕ)
      → length bytes < size + 5
      → decode_body rmp (length bytes) size reader
        ≡ (reading_length size, refused (incomplete_buffer (size + 5)))
  unfolding decode_body
  decode_part reader bytes lt = ground (arith, small, lt)

  -- A decoder that stands at the beginning of the frame, and may know its length already.
  abbrev pub Resumes : State → Type 0
  Resumes s = (s ≡ waiting) ⊎ (s ≡ reading_length size)

  length_first :
      (bytes reader : List ℕ)
      → 5 ≤ length bytes
      → rmp.read_u32 bytes ≡ some (size, reader)
      → decode rmp waiting bytes ≡ decode_body rmp (length bytes) size reader
  unfolding decode
  length_first bytes reader le e = ground (arith, le, e)

  too_short :
      (bytes : List ℕ)
      → length bytes < 5
      → decode rmp waiting bytes ≡ (waiting, refused (incomplete_buffer 5))
  unfolding decode
  too_short bytes lt = ground (arith, lt)

  -- The first bytes of a frame hold its length, and the first bytes of its body.
  take-frame : (k : ℕ) → 5 ≤ k → take k frame ≡ rmp.write_u32 size ++ take (k - 5) (rmp.write m)
  take-frame k le =
      take-append_right k (rmp.write_u32 size) (rmp.write m)
        (omega (arith, law.length_bytes size, le))
      ∙ ap (λ j. rmp.write_u32 size ++ take (k - j) (rmp.write m)) (law.length_bytes size)

  length-part : (k : ℕ) → k < size + 5 → length (take k frame) ≡ k
  length-part k lt = omega (arith, length-take k frame, length-frame, lt)

  abbrev pub Waits : ℕ → State × Decoded M → Type 0
  Waits k o =
      (s' : State) × (n : ℕ) × (o ≡ (s', refused (incomplete_buffer n)))
      × Resumes s'
      × (k < n)
      × (n ≤ size + 5)

  part-Waits :
      (k : ℕ) (s : State) → k < size + 5 → Resumes s → Waits k (decode rmp s (take k frame))
  unfolding decode
  part-Waits k s lt (inr e) = (
    reading_length size,
    size + 5,
    ap (λ x. decode rmp x (take k frame)) e
        ∙ decode_part (drop 5 (take k frame)) (take k frame) (omega (arith, length-part k lt, lt)),
    inr refl,
    lt,
    omega arith,
  )
  part-Waits k s lt (inl e) = elim (Bool-cases (ltb k 5)) [
    | inl few ↦ (
      waiting,
      5,
      ap (λ x. decode rmp x (take k frame)) e
          ∙ too_short (take k frame) (ground (arith, few, length-part k lt)),
      inl refl,
      ground (arith, few),
      omega arith,
    )
    | inr more ↦
        let le : 5 ≤ k = ground (arith, more) in
        let reader = take (k - 5) (rmp.write m) in
        (
          reading_length size,
          size + 5,
          ap (λ x. decode rmp x (take k frame)) e
              ∙ length_first (take k frame) reader (omega (arith, le, length-part k lt)) (
                  ap rmp.read_u32 (take-frame k le)
                  ∙ law.reads_u32 size reader (omega (arith, small)))
              ∙ decode_part reader (take k frame) (omega (arith, length-part k lt, lt)),
          inr refl,
          lt,
          omega arith,
        )
  ]

  split_frame : (rest : List ℕ) → frame ++ rest ≡ rmp.write_u32 size ++ (rmp.write m ++ rest)
  split_frame rest = append_assoc (rmp.write_u32 size) (rmp.write m) rest

  length-whole : (rest : List ℕ) → length (frame ++ rest) ≡ size + 5 + length rest
  length-whole rest = omega (arith, length-append frame rest, length-frame)

  drop-frame : (rest : List ℕ) → drop 5 (frame ++ rest) ≡ rmp.write m ++ rest
  drop-frame rest =
      ap (drop 5) (split_frame rest)
      ∙ ap (λ k. drop k (rmp.write_u32 size ++ (rmp.write m ++ rest))) (sym (law.length_bytes size))
      ∙ drop-append_length (rmp.write_u32 size) (rmp.write m ++ rest)

  whole_frame :
      (s : State) (rest : List ℕ)
      → Resumes s
      → decode rmp s (frame ++ rest) ≡ (waiting, message (size + 5) m)
  unfolding decode
  whole_frame s rest (inl e) =
      ap (λ x. decode rmp x (frame ++ rest)) e
      ∙ length_first (frame ++ rest) (rmp.write m ++ rest) (omega (arith, length-whole rest)) (
          ap rmp.read_u32 (split_frame rest)
          ∙ law.reads_u32 size (rmp.write m ++ rest) (omega (arith, small)))
      ∙ decode_whole (rmp.write m ++ rest) rest (frame ++ rest) refl (length-whole rest)
  whole_frame s rest (inr e) =
      ap (λ x. decode rmp x (frame ++ rest)) e
      ∙ decode_whole (drop 5 (frame ++ rest)) rest (frame ++ rest) (drop-frame rest)
          (length-whole rest)

  -- A message that is serialized into an empty buffer, and whose frame is below 4 GiB, is decoded
  -- again, in whatever pieces it arrives: on a part of the frame the decoder asks for more bytes than
  -- there are, and never for more than the frame has; it then still stands at the beginning of the
  -- frame; and from there, once the frame is complete, it gives the message and takes the bytes of
  -- the frame, whatever follows.
  pub decode-serialize_into_buffer :
      (s : State) (rest : List ℕ)
      → Resumes s
      → ((k : ℕ)
          → k < size + 5
          → Waits k (decode rmp s (take k (serialize_into_buffer rmp tt m []).1)))
        × (decode rmp s ((serialize_into_buffer rmp tt m []).1 ++ rest)
            ≡ (waiting, message (size + 5) m))
  decode-serialize_into_buffer s rest h = (
    λ k lt. subst (λ l. Waits k (decode rmp s (take k l))) (sym serialized) (part-Waits k s lt h),
    ap (λ l. decode rmp s (l ++ rest)) serialized ∙ whole_frame s rest h,
  )
