-- ===== src/Spillway/Receiver/Batches.antt =====
-- What a batch takes from a receiver (spillway/src/receiver.rs, next_batch and BatchDrain).
use protosocket.Prelude.{
  Poll, ready, pending, ℕ, zero, suc, ◌+◌, ◌%◌, ◌≤◌, ◌<◌, ◌≡◌, ◌≢◌, inl, inr, refl, sym, ap, subst,
  ◌∙◌, not, ◌==◌, Bool-cases, Option-cases, List, [], ◌∷◌, length, get_elem?, set, take, drop,
  Option, none, some, arith, length-take, length-drop, take_all, drop_all,
}
use protosocket.Prelude.Word.{u64_max}
use protosocket.Spillway.Chute
use protosocket.Spillway.Chute.{Chute}
use protosocket.Spillway.Shared.{register, race_find_dirty}
use protosocket.Spillway.Contents.{AllMarked}
use protosocket.Spillway.Receiver.{
  Receiver, Polled, decrement_size, pop_buffer, take_chute, double_check, find_next, poll_next_on,
  BatchDrain, poll_next, put_back, poll_batch, batch_next, batch_take, batch_drop,
}
use protosocket.Spillway.Receiver.Validity.{stored, IsValid, Reports, poll_next-Answers}

module _ {ℓ} {T : Type ℓ} where
  abbrev with_buffer : BatchDrain T → List T → BatchDrain T
  with_buffer d buffer = record d { receiver = record (d.receiver) { buffer = buffer } }

  next_none : (d : BatchDrain T) → d.receiver.buffer ≡ [] → batch_next d ≡ (none, d)
  unfolding batch_next
  next_none d e = rw e refl

  next_some :
      (d : BatchDrain T) (v : T) (rest : List T)
      → d.receiver.buffer ≡ v ∷ rest
      → batch_next d ≡ (some v, with_buffer d rest)
  unfolding batch_next
  next_some d v rest e = rw e refl

  -- What one call of the iterator and the rest of them give.
  abbrev taking : Option T × BatchDrain T → ℕ → List T × BatchDrain T
  taking (o, d) n =
      (elim o [ none ↦ (batch_take n d).0 | some v ↦ v ∷ (batch_take n d).0 ], (batch_take n d).1)

  take_step : (n : ℕ) (d : BatchDrain T) → batch_take (suc n) d ≡ taking (batch_next d) n
  unfolding batch_take
  take_step n d = refl

  -- `n` values of the batch: the front of its buffer, and the rest stays.
  batch_take-buffer :
      (n : ℕ) (bs : List T) (d : BatchDrain T)
      → d.receiver.buffer ≡ bs
      → batch_take n d ≡ (take n bs, with_buffer d (drop n bs))
  unfolding batch_take
  batch_take-buffer zero bs d e = ap (λ l. ([], with_buffer d l)) e
  batch_take-buffer (suc n) [] d e =
      take_step n d
      ∙ ap (λ x. taking x n) (next_none d e)
      ∙ batch_take-buffer n [] d e
      ∙ ap (λ l. (l, with_buffer d (drop n []))) (take_all n [] (omega arith))
      ∙ ap (λ l. ([], with_buffer d l)) (drop_all n [] (omega arith))
  batch_take-buffer (suc n) (v ∷ rest) d e =
      take_step n d
      ∙ ap (λ x. taking x n) (next_some d v rest e)
      ∙ ap (λ x. (v ∷ x.0, x.1)) (batch_take-buffer n rest (with_buffer d rest) refl)

  -- A batch from a receiver that holds `total` values: what is in it and in the chutes, and the
  -- count that a bounded channel keeps.
  pub record IsBatch (total : ℕ) (d : BatchDrain T) : Type 0 where
    pub in_range : d.receiver.cursor < length d.receiver.shared.chutes
    pub marked : AllMarked d.receiver.shared.chutes
    pub small : d.receiver.shared.capacity ≤ u64_max
    pub whole : stored d.receiver ≡ total
    pub initial : d.initial_len ≡ length d.receiver.buffer
    pub counts : d.counts ≡ not (d.receiver.shared.capacity == u64_max)
    pub counted : d.receiver.shared.capacity ≢ u64_max → d.receiver.shared.channel_size ≡ total
    pub bounded : d.receiver.shared.capacity ≢ u64_max → total ≤ d.receiver.shared.capacity

  -- Polling leaves the capacity as it is.
  SameCapacity : Receiver T → Polled T → Type ℓ
  SameCapacity r o =
      (p : Poll (Option T)) (r' : Receiver T)
      → o ≡ some (p, r')
      → r'.shared.capacity ≡ r.shared.capacity

  pop_buffer-SameCapacity : (r : Receiver T) (bs : List T) → SameCapacity r (pop_buffer r bs)
  unfolding pop_buffer SameCapacity decrement_size
  pop_buffer-SameCapacity r [] p r' e = absurd (ground (arith, e))
  pop_buffer-SameCapacity r (v ∷ rest) p r' e = ground (arith, e)

  abbrev waiting : Receiver T → Receiver T
  waiting r = record r { shared = record (r.shared) { waker = register ∷ r.shared.waker } }

  abbrev swapped : Receiver T → ℕ → Chute T → Receiver T
  swapped r i c = record {
    cursor = (i + 1) % length r.shared.chutes;
    buffer = (Chute.swap c r.buffer).1;
    shared = record (r.shared) { chutes = set r.shared.chutes i (Chute.swap c r.buffer).0 };
  }

  take_chute-some :
      (r : Receiver T) (i : ℕ) (c : Chute T)
      → get_elem? r.shared.chutes i ≡ some c
      → take_chute r i ≡ pop_buffer (swapped r i c) (Chute.swap c r.buffer).1
  unfolding take_chute
  take_chute-some r i c z = ground (arith, z)

  take_chute-SameCapacity : (r : Receiver T) (i : ℕ) → SameCapacity r (take_chute r i)
  unfolding take_chute SameCapacity
  take_chute-SameCapacity r i p r' e = elim (Option-cases (get_elem? r.shared.chutes i)) [
    | inl z ↦ absurd (ground (arith, e, z))
    | inr (c, z) ↦
        pop_buffer-SameCapacity (swapped r i c) (Chute.swap c r.buffer).1 p r'
          (sym (take_chute-some r i c z) ∙ e)
  ]

  find_next-SameCapacity : (r : Receiver T) → SameCapacity r (find_next r)
  unfolding find_next double_check SameCapacity
  find_next-SameCapacity r p r' e = elim (Option-cases (race_find_dirty r.shared r.cursor)) [
    | inr (i, z) ↦ take_chute-SameCapacity r i p r' (sym (ground (arith, z)) ∙ e)
    | inl z ↦ elim (Option-cases (race_find_dirty (waiting r).shared r.cursor)) [
      | inr (i, y) ↦ take_chute-SameCapacity (waiting r) i p r' (sym (ground (arith, z, y)) ∙ e)
      | inl y ↦ ground (arith, z, y, e)
    ]
  ]

  poll_next_on-SameCapacity : (r : Receiver T) (bs : List T) → SameCapacity r (poll_next_on bs r)
  unfolding poll_next_on
  poll_next_on-SameCapacity r [] = find_next-SameCapacity r
  poll_next_on-SameCapacity r (v ∷ rest) = pop_buffer-SameCapacity r (v ∷ rest)

  poll_next-SameCapacity : (r : Receiver T) → SameCapacity r (poll_next r)
  unfolding poll_next
  poll_next-SameCapacity r = poll_next_on-SameCapacity r r.buffer

  put_back-IsBatch :
      (v : T) (r r' : Receiver T)
      → IsValid r'
      → r'.shared.capacity ≡ r.shared.capacity
      → (r.shared.capacity ≢ u64_max → stored r ≤ r.shared.capacity)
      → stored r ≡ suc (stored r')
      → IsBatch (stored r) (put_back v r')
  unfolding put_back
  put_back-IsBatch v r r' h same fits one = elim (Bool-cases (r'.shared.capacity == u64_max)) [
    | inl unbounded ↦ ground (arith, unbounded, h.counted, h.in_range, h.marked, h.small, one)
    | inr bounded ↦
        ground (arith, bounded, same, fits, h.counted, h.in_range, h.marked, h.small, one)
  ]

  -- After `n` values, a batch that is dropped leaves a valid receiver.
  batch_drop-Accounts :
      (n total : ℕ) (d : BatchDrain T)
      → IsBatch total d
      → IsValid (batch_drop (with_buffer d (drop n d.receiver.buffer)))
        × (stored (batch_drop (with_buffer d (drop n d.receiver.buffer)))
              + length (take n d.receiver.buffer)
            ≡ total)
  unfolding batch_drop
  batch_drop-Accounts n total d h =
      let sizes = length-drop n d.receiver.buffer in
      let taken = length-take n d.receiver.buffer in
      elim (Bool-cases (d.receiver.shared.capacity == u64_max)) [
        | inl unbounded ↦
            ground
              (arith, unbounded, h.counts, h.in_range, h.marked, h.small, h.whole, sizes, taken)
        | inr bounded ↦ ground (
          arith, bounded, h.counts, h.in_range, h.marked, h.small, h.whole, h.initial, h.counted,
          h.bounded, sizes, taken,
        )
      ]

  -- Whatever is taken of a batch, and nothing or all of it, the receiver that it leaves accounts for
  -- the rest.
  abbrev pub Accounts : Receiver T → BatchDrain T → Type ℓ
  Accounts r d =
      (n : ℕ)
      → ((batch_take n d).0 ≡ take n d.receiver.buffer)
        × IsValid (batch_drop (batch_take n d).1)
        × (stored (batch_drop (batch_take n d).1) + length (batch_take n d).0 ≡ stored r)

  batch-Accounts : (r : Receiver T) (d : BatchDrain T) → IsBatch (stored r) d → Accounts r d
  batch-Accounts r d h n =
      let e = batch_take-buffer n d.receiver.buffer d refl in
      let (valid, count) = batch_drop-Accounts n (stored r) d h in
      (
        ap (λ x. x.0) e,
        subst (λ x. IsValid (batch_drop (x.1))) (sym e) valid,
        subst (λ x. stored (batch_drop (x.1)) + length (x.0) ≡ stored r) (sym e) count,
      )

module _ {T : Type 0} where
  abbrev pub Gives : Receiver T → Poll (Option (BatchDrain T)) → Type 0
  Gives r (ready (some d)) = (0 < length d.receiver.buffer) × Accounts r d
  Gives r (ready none) = (stored r ≡ 0) × (r.shared.senders ≡ 0)
  Gives r pending = (stored r ≡ 0) × (r.shared.senders ≢ 0)

  abbrev pub Batches : Receiver T → Option (Poll (Option (BatchDrain T)) × Receiver T) → Type 0
  Batches r o =
      (p : Poll (Option (BatchDrain T))) × (r' : Receiver T) × (o ≡ some (p, r')) × Gives r p

  polled_Batches :
      (r : Receiver T) (p : Poll (Option T)) (r' : Receiver T)
      → IsValid r
      → poll_next r ≡ some (p, r')
      → IsValid r'
      → Reports r p r'
      → Batches r (poll_batch r)
  unfolding poll_batch put_back SameCapacity
  polled_Batches r (ready (some v)) r' h e valid one = (
    ready (some (put_back v r')),
    r',
    ground (arith, e),
    (
      omega arith,
      batch-Accounts r (put_back v r')
          (put_back-IsBatch v r r' valid (poll_next-SameCapacity r _ r' e) h.bounded one),
    ),
  )
  polled_Batches r (ready none) r' h e valid (before, _, gone) =
      (ready none, r', ground (arith, e), (before, gone))
  polled_Batches r pending r' h e valid (before, _, there, _) =
      (pending, r', ground (arith, e), (before, there))

  -- A poll for a batch of a valid receiver never panics. It gives the end only with nothing stored and
  -- no sender left, and waits only with nothing stored. A batch has a value at least; whatever part
  -- of it is taken, its front comes out in order, and when it is dropped the receiver is valid and
  -- stores as many values as were not taken, which is what a bounded channel then counts.
  pub poll_batch-Batches : (r : Receiver T) → IsValid r → Batches r (poll_batch r)
  poll_batch-Batches r h =
      let (p, r', e, valid, says) = poll_next-Answers r h in polled_Batches r p r' h e valid says
