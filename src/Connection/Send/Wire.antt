-- ===== src/Connection/Send/Wire.antt =====
-- The bytes of the send buffer, and what a vectored write takes of them
-- (protosocket-connection/src/connection.rs, poll_writev_buffers and advance_send_buffers).
use protosocket.Prelude.{
  ℕ, ◌+◌, ◌-◌, ◌≤◌, ◌<◌, ◌≡◌, ◌≢◌, ◌⊎◌, inl, inr, refl, sym, ap, ◌∙◌, ltb, leb, ◌==◌, Bool-cases,
  List, [], ◌∷◌, ◌++◌, length, drop, arith, append-nil, append_assoc, length-append, drop_all,
  drop-append_left, drop-append_right,
}
use protosocket.Codec.{Codec}
use protosocket.Reactor.{MessageReactor, Stream, Buf}
use protosocket.Connection.Send.{uio_maxiov, gather, advance_buffers}

abbrev pub flat : List (List ℕ) → List ℕ
flat [] = []
flat (s ∷ ss) = s ++ flat ss

-- What the default `chunks_vectored` of bytes' `Buf` gives for a buffer of one chunk: that chunk, or
-- none with no slot or no bytes. It is a prefix, and with a slot to spare all of the contents.
module _ (contents : List ℕ) (slots : ℕ) where
  abbrev pub OneChunk : List (List ℕ) → Type 0
  OneChunk chunks =
      ((chunks ≡ contents ∷ []) × (0 < slots)) ⊎ ((chunks ≡ []) × ((slots ≡ 0) ⊎ (contents ≡ [])))

  OneChunk-prefix :
      (chunks : List (List ℕ))
      → OneChunk chunks
      → (rest : List ℕ) × (contents ≡ flat chunks ++ rest)
  OneChunk-prefix chunks (inl (e, _)) =
      ([], sym (ap (λ l. flat l ++ []) e ∙ append-nil (contents ++ []) ∙ append-nil contents))
  OneChunk-prefix chunks (inr (e, _)) = (contents, ap (λ l. flat l ++ contents) (sym e))

  OneChunk-bounded : (chunks : List (List ℕ)) → OneChunk chunks → length chunks ≤ slots
  OneChunk-bounded chunks (inl (e, pos)) = omega (arith, ap length e)
  OneChunk-bounded chunks (inr (e, _)) = omega (arith, ap length e)

  OneChunk-all :
      (chunks : List (List ℕ)) → OneChunk chunks → length chunks < slots → contents ≡ flat chunks
  OneChunk-all chunks (inl (e, _)) lt = sym (ap flat e ∙ append-nil contents)
  OneChunk-all chunks (inr (e, inl z)) lt = absurd (omega arith)
  OneChunk-all chunks (inr (e, inr z)) lt = z ∙ ap flat (sym e)

-- A `Buf` whose bytes `contents` are one chunk: its length, its advances and its slices are those of
-- the chunk. The buffers of PooledEncoder and of OwnedBuffer are such. One of several chunks that keeps
-- the default `chunks_vectored` is not: it gives the first chunk only.
pub record IsContiguous {B : Type 0} (buf : Buf B) (contents : B → List ℕ) : Type 0 where
  pub remaining_length : (b : B) → buf.remaining b ≡ length (contents b)
  pub advance_drop :
      (b : B) (n : ℕ) → n ≤ length (contents b) → contents (buf.advance b n) ≡ drop n (contents b)
  pub one_chunk : (b : B) (slots : ℕ) → OneChunk (contents b) slots (buf.chunks_vectored b slots)

module _ {B : Type 0} {buf : Buf B} {contents : B → List ℕ} (law : IsContiguous buf contents) where
  chunks_prefix :
      (b : B) (slots : ℕ)
      → (rest : List ℕ) × (contents b ≡ flat (buf.chunks_vectored b slots) ++ rest)
  chunks_prefix b slots = OneChunk-prefix (contents b) slots _ (law.one_chunk b slots)

  chunks_bounded : (b : B) (slots : ℕ) → length (buf.chunks_vectored b slots) ≤ slots
  chunks_bounded b slots = OneChunk-bounded (contents b) slots _ (law.one_chunk b slots)

  chunks_all :
      (b : B) (slots : ℕ)
      → length (buf.chunks_vectored b slots) < slots
      → contents b ≡ flat (buf.chunks_vectored b slots)
  chunks_all b slots = OneChunk-all (contents b) slots _ (law.one_chunk b slots)

module _ {B : Type 0} (contents : B → List ℕ) where
  -- The bytes that are to go out, in order.
  abbrev pub wire : List B → List ℕ
  wire [] = []
  wire (b ∷ bs) = contents b ++ wire bs

  pub wire-append : (xs ys : List B) → wire (xs ++ ys) ≡ wire xs ++ wire ys
  wire-append [] ys = refl
  wire-append (x ∷ xs) ys =
      ap (λ l. contents x ++ l) (wire-append xs ys)
      ∙ sym (append_assoc (contents x) (wire xs) (wire ys))

flat-append : (xs ys : List (List ℕ)) → flat (xs ++ ys) ≡ flat xs ++ flat ys
flat-append [] ys = refl
flat-append (x ∷ xs) ys =
    ap (λ l. x ++ l) (flat-append xs ys) ∙ sym (append_assoc x (flat xs) (flat ys))

module _ {S D R B I O L : Type 0} (stream : Stream S) (buf : Buf B) (codec : Codec D I O B)
    (reactor : MessageReactor R D B I O L) (contents : B → List ℕ)
    (law : IsContiguous buf contents) where
  -- The slices are a prefix of the wire.
  abbrev pub Prefix : List B → List (List ℕ) → Type 0
  Prefix bs slices = (rest : List ℕ) × (wire contents bs ≡ flat slices ++ rest)

  gather_full :
      (bs : List B) (filled : ℕ)
      → uio_maxiov ≤ filled
      → gather stream buf codec reactor bs filled ≡ []
  unfolding gather
  gather_full [] filled h = refl
  gather_full (b ∷ bs) filled h = ground (arith, h)

  gather_nil : (filled : ℕ) → gather stream buf codec reactor [] filled ≡ []
  unfolding gather
  gather_nil filled = refl

  gather_more :
      (b : B) (bs : List B) (filled : ℕ)
      → filled < uio_maxiov
      → length (buf.chunks_vectored b (uio_maxiov - filled)) ≢ 0
      → gather stream buf codec reactor (b ∷ bs) filled
        ≡ buf.chunks_vectored b (uio_maxiov - filled)
          ++ gather stream buf codec reactor bs
              (filled + length (buf.chunks_vectored b (uio_maxiov - filled)))
  unfolding gather
  gather_more b bs filled h ne = ground (arith, h, ne)

  gather_stops :
      (b : B) (bs : List B) (filled : ℕ)
      → length (buf.chunks_vectored b (uio_maxiov - filled)) ≡ 0
      → gather stream buf codec reactor (b ∷ bs) filled ≡ []
  unfolding gather
  gather_stops b bs filled e = ground (arith, e)

  module _ (b : B) (bs : List B) (filled : ℕ) (under : filled < uio_maxiov) where
    partial-Prefix :
        length (buf.chunks_vectored b (uio_maxiov - filled)) ≡ uio_maxiov - filled
        → Prefix (b ∷ bs) (gather stream buf codec reactor (b ∷ bs) filled)
    partial-Prefix e =
        let cs = buf.chunks_vectored b (uio_maxiov - filled) in
        let (rest, pre) = chunks_prefix law b (uio_maxiov - filled) in
        (
          rest ++ wire contents bs,
          ap (λ l. l ++ wire contents bs) pre
              ∙ append_assoc (flat cs) rest (wire contents bs)
              ∙ ap (λ g. flat g ++ (rest ++ wire contents bs))
                  (sym (
                    gather_more b bs filled under (omega (arith, e))
                    ∙ ap (λ g. cs ++ g) (gather_full bs (filled + length cs) (omega (arith, e)))
                    ∙ append-nil cs)),
        )

    whole-Prefix :
        length (buf.chunks_vectored b (uio_maxiov - filled)) < uio_maxiov - filled
        → length (buf.chunks_vectored b (uio_maxiov - filled)) ≢ 0
        → Prefix bs (
            gather stream buf codec reactor bs
              (filled + length (buf.chunks_vectored b (uio_maxiov - filled))))
        → Prefix (b ∷ bs) (gather stream buf codec reactor (b ∷ bs) filled)
    whole-Prefix lt ne (rest, e) =
        let cs = buf.chunks_vectored b (uio_maxiov - filled) in
        let more = gather stream buf codec reactor bs (filled + length cs) in
        (
          rest,
          ap (λ l. l ++ wire contents bs) (chunks_all law b (uio_maxiov - filled) lt)
              ∙ ap (λ l. flat cs ++ l) e
              ∙ sym (append_assoc (flat cs) (flat more) rest)
              ∙ ap (λ l. l ++ rest)
                  (sym (ap flat (gather_more b bs filled under ne) ∙ flat-append cs more)),
        )

  pub gather-Prefix :
      (bs : List B) (filled : ℕ) → Prefix bs (gather stream buf codec reactor bs filled)
  gather-Prefix [] filled = ([], ap (λ g. flat g ++ []) (sym (gather_nil filled)))
  gather-Prefix (b ∷ bs) filled = elim (Bool-cases (leb uio_maxiov filled)) [
    | inl full ↦ (
      wire contents (b ∷ bs),
      ap (λ g. flat g ++ wire contents (b ∷ bs))
          (sym (gather_full (b ∷ bs) filled (ground (arith, full)))),
    )
    | inr room ↦ elim (Bool-cases (length (buf.chunks_vectored b (uio_maxiov - filled)) == 0)) [
      | inl empty ↦ (
        wire contents (b ∷ bs),
        ap (λ g. flat g ++ wire contents (b ∷ bs))
            (sym (gather_stops b bs filled (ground (arith, empty)))),
      )
      | inr ne ↦
          elim (Bool-cases
            (ltb (length (buf.chunks_vectored b (uio_maxiov - filled))) (uio_maxiov - filled))) [
              | inl lt ↦
                  whole-Prefix b bs filled (ground (arith, room)) (ground (arith, lt))
                    (λ e. ground (arith, ne, e))
                    (gather-Prefix bs
                      (filled + length (buf.chunks_vectored b (uio_maxiov - filled))))
              | inr ge ↦
                  partial-Prefix b bs filled (ground (arith, room))
                    (ground (arith, ge, chunks_bounded law b (uio_maxiov - filled)))
            ]
    ]
  ]

  pub length-gather :
      (bs : List B) (filled : ℕ)
      → filled ≤ uio_maxiov
      → filled + length (gather stream buf codec reactor bs filled) ≤ uio_maxiov
  unfolding gather
  length-gather [] filled h = omega (arith, h)
  length-gather (b ∷ bs) filled h = ground (
    arith,
    h,
    chunks_bounded law b (uio_maxiov - filled),
    length-gather bs (filled + length (buf.chunks_vectored b (uio_maxiov - filled)))
        (omega (arith, h, chunks_bounded law b (uio_maxiov - filled))),
    length-append (buf.chunks_vectored b (uio_maxiov - filled)) (
        gather stream buf codec reactor bs
          (filled + length (buf.chunks_vectored b (uio_maxiov - filled)))),
  )

  -- What is left of the wire, and that there are no more buffers than before.
  pub record Advanced (written : ℕ) (bs bs' : List B) : Type 0 where
    pub dropped : wire contents bs' ≡ drop written (wire contents bs)
    pub fewer : length bs' ≤ length bs

  pub advance_buffers-Advanced :
      (written : ℕ) (d : D) (bs : List B)
      → written ≤ length (wire contents bs)
      → Advanced written bs (advance_buffers stream buf codec reactor written d bs).1
  unfolding advance_buffers
  advance_buffers-Advanced written d [] h = record {
    dropped = sym (drop_all written ([]) (omega arith));
    fewer = omega arith;
  }
  advance_buffers-Advanced written d (front ∷ bs) h = elim (Bool-cases (ltb 0 written)) [
    | inr stays ↦ rw stays (record {
      dropped =
          let nothing : 0 ≡ written = ground (arith, stays) in
          ap (λ k. drop k (wire contents (front ∷ bs))) nothing;
      fewer = omega arith;
    })
    | inl pos ↦ elim (Bool-cases (leb (buf.remaining front) written)) [
      | inl whole ↦
          let ih =
            advance_buffers-Advanced (written - buf.remaining front) (codec.return_buffer d front)
              bs
              (ground (
                arith,
                h,
                length-append (contents front) (wire contents bs),
                law.remaining_length front,
              )) in
          rw pos (
            rw whole (record {
              dropped =
                  ih.dropped
                  ∙ ap (λ k. drop (written - k) (wire contents bs)) (law.remaining_length front)
                  ∙ sym (
                      drop-append_right written (contents front) (wire contents bs)
                        (ground (arith, whole, law.remaining_length front)));
              fewer = omega (arith, ih.fewer);
            }))
      | inr part ↦
          let le : written ≤ length (contents front) =
            ground (arith, part, law.remaining_length front) in
          rw pos (
            rw part (record {
              dropped =
                  ap (λ l. l ++ wire contents bs) (law.advance_drop front written le)
                  ∙ sym (drop-append_left written (contents front) (wire contents bs) le);
              fewer = omega arith;
            }))
    ]
  ]
