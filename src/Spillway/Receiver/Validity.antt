-- ===== src/Spillway/Receiver/Validity.antt =====
-- What each poll of a spillway receiver does (spillway/src/receiver.rs, poll_next).
use protosocket.Prelude.{
  Poll, ready, pending, ℕ, suc, ◌+◌, ◌%◌, ◌≤◌, ◌<◌, ◌≡◌, ◌≢◌, inl, inr, refl, sym, ◌∙◌, true, ◌==◌,
  Bool-cases, Option-cases, List, [], ◌∷◌, length, get_elem?, set, Option, none, some, arith,
  length-set,
}
use protosocket.Prelude.Word.{u64_max}
use native.Mathlib.Nat.{mod-lt}
use protosocket.Spillway.Chute.{Chute}
use protosocket.Spillway.Shared.{register, race_find_dirty}
use protosocket.Spillway.Contents.{
  stored_in, AllMarked, AllMarked-set, stored_in-set, find_dirty-some, find_dirty-none-stored_in,
}
use protosocket.Spillway.Receiver.{
  Receiver, Polled, decrement_size, pop_buffer, take_chute, double_check, find_next, poll_next_on,
  poll_next,
}

module _ {ℓ} {T : Type ℓ} where
  -- Everything sent and not yet received.
  abbrev pub stored : Receiver T → ℕ
  stored r = length r.buffer + stored_in r.shared.chutes

  -- The count of a bounded channel is exact and within its capacity.
  pub record IsValid (r : Receiver T) : Type 0 where
    pub in_range : r.cursor < length r.shared.chutes
    pub marked : AllMarked r.shared.chutes
    pub small : r.shared.capacity ≤ u64_max
    pub counted : r.shared.capacity ≢ u64_max → r.shared.channel_size ≡ stored r
    pub bounded : r.shared.capacity ≢ u64_max → stored r ≤ r.shared.capacity

  -- What the answer of a poll says of the channel.
  abbrev pub Reports : Receiver T → Poll (Option T) → Receiver T → Type 0
  Reports r (ready (some v)) r' = stored r ≡ suc (stored r')
  Reports r (ready none) r' = (stored r ≡ 0) × (stored r' ≡ 0) × (r.shared.senders ≡ 0)
  Reports r pending r' =
      (stored r ≡ 0)
      × (stored r' ≡ 0)
      × (r.shared.senders ≢ 0)
      × (r'.shared.waker ≡ register ∷ r.shared.waker)

  abbrev pub Answers : Receiver T → Polled T → Type ℓ
  Answers r o =
      (p : Poll (Option T)) × (r' : Receiver T) × (o ≡ some (p, r')) × IsValid r' × Reports r p r'

  decrement_size-IsValid :
      (r : Receiver T)
      → r.cursor < length r.shared.chutes
      → AllMarked r.shared.chutes
      → r.shared.capacity ≤ u64_max
      → (r.shared.capacity ≢ u64_max → r.shared.channel_size ≡ suc (stored r))
      → (r.shared.capacity ≢ u64_max → suc (stored r) ≤ r.shared.capacity)
      → IsValid (decrement_size r 1)
  unfolding decrement_size
  decrement_size-IsValid r i m s c b = ground arith

  decrement_size-stored : (r : Receiver T) → stored (decrement_size r 1) ≡ stored r
  unfolding decrement_size
  decrement_size-stored r = ground arith

  -- The poll gives `v`, which was there.
  abbrev pub Takes : Receiver T → T → Polled T → Type ℓ
  Takes r v o =
      (r' : Receiver T) × (o ≡ some (ready (some v), r'))
      × IsValid r'
      × (stored r ≡ suc (stored r'))

  pub pop_buffer-Takes :
      (r : Receiver T) (v : T) (rest : List T)
      → r.buffer ≡ v ∷ rest
      → IsValid r
      → Takes r v (pop_buffer r (v ∷ rest))
  unfolding pop_buffer
  pop_buffer-Takes r v rest e h = (
    decrement_size (record r { buffer = rest }) 1,
    refl,
    decrement_size-IsValid (record r { buffer = rest }) h.in_range h.marked h.small
        (λ n. ground (arith, h.counted n)) (λ n. ground (arith, h.bounded n)),
    ground (arith, decrement_size-stored (record r { buffer = rest })),
  )

  -- The receiver that has taken over the chute `k`, and its values `vs`.
  abbrev pub taken : Receiver T → ℕ → List T → Receiver T
  taken r k vs = record {
    cursor = (k + 1) % length r.shared.chutes;
    buffer = vs;
    shared = record (r.shared) {
      chutes = set r.shared.chutes k (record { queue = []; clean = true });
    };
  }

  pub take_chute_lem :
      (r : Receiver T) (k : ℕ) (c : Chute T) {vs : List T}
      → r.buffer ≡ []
      → get_elem? r.shared.chutes k ≡ some c
      → c.queue ≡ vs
      → take_chute r k ≡ pop_buffer (taken r k vs) vs
  unfolding take_chute
  take_chute_lem r k c empty at held = ground arith

  taken-stored :
      (r : Receiver T) (k : ℕ) (c : Chute T) (vs : List T)
      → r.buffer ≡ []
      → get_elem? r.shared.chutes k ≡ some c
      → c.queue ≡ vs
      → stored (taken r k vs) ≡ stored r
  taken-stored r k c vs empty at held =
      ground (arith, stored_in-set r.shared.chutes k (record { queue = []; clean = true }) at)

  taken-IsValid :
      (r : Receiver T) (k : ℕ) (c : Chute T) (vs : List T)
      → r.buffer ≡ []
      → get_elem? r.shared.chutes k ≡ some c
      → c.queue ≡ vs
      → IsValid r
      → IsValid (taken r k vs)
  taken-IsValid r k c vs empty at held h =
      let same = taken-stored r k c vs empty at held in
      record {
        in_range =
            rw (length-set r.shared.chutes k (record { queue = []; clean = true }))
              (mod-lt (k + 1) (omega (arith, h.in_range)));
        marked = AllMarked-set r.shared.chutes k _ refl h.marked;
        small = h.small;
        counted = λ n. h.counted n ∙ sym same;
        bounded = λ n. omega (arith, h.bounded n, same);
      }

  -- A chute with values in it is taken over whole, by a receiver that has none.
  take_chute-Takes :
      (r : Receiver T) (k : ℕ) (c : Chute T) (v : T) (rest : List T)
      → r.buffer ≡ []
      → get_elem? r.shared.chutes k ≡ some c
      → c.queue ≡ v ∷ rest
      → IsValid r
      → Takes r v (take_chute r k)
  take_chute-Takes r k c v rest empty at held h =
      let (r', e, h', n) =
        pop_buffer-Takes (taken r k (v ∷ rest)) v rest refl
          (taken-IsValid r k c (v ∷ rest) empty at held h) in
      (
        r',
        take_chute_lem r k c empty at held ∙ e,
        h',
        sym (taken-stored r k c (v ∷ rest) empty at held) ∙ n,
      )

  Takes-Answers : (r : Receiver T) (v : T) (o : Polled T) → Takes r v o → Answers r o
  Takes-Answers r v o (r', e, h, n) = (ready (some v), r', e, h, n)

  -- The receiver with its waker registered.
  abbrev pub registered : Receiver T → Receiver T
  registered r = record r { shared = record (r.shared) { waker = register ∷ r.shared.waker } }

  found-Answers :
      (r : Receiver T) (k : ℕ)
      → r.buffer ≡ []
      → race_find_dirty r.shared r.cursor ≡ some k
      → IsValid r
      → Answers r (take_chute r k)
  unfolding race_find_dirty
  found-Answers r k empty e h =
      let (c, v, rest, at, held) = find_dirty-some r.shared.chutes r.cursor h.marked e in
      Takes-Answers r v _ (take_chute-Takes r k c v rest empty at held h)

  stored-none :
      (r : Receiver T)
      → r.buffer ≡ []
      → race_find_dirty r.shared r.cursor ≡ none
      → IsValid r
      → stored r ≡ 0
  unfolding race_find_dirty
  stored-none r empty e h =
      ground (arith, find_dirty-none-stored_in r.shared.chutes r.cursor h.in_range h.marked e)

  -- With nothing to change the shared state between the two looks, the second finds nothing either.
  double_check-Answers :
      (r : Receiver T)
      → r.buffer ≡ []
      → race_find_dirty r.shared r.cursor ≡ none
      → IsValid r
      → Answers r (double_check r)
  unfolding double_check race_find_dirty
  double_check-Answers r empty e h = elim (Bool-cases (0 == r.shared.senders)) [
    | inl last ↦ (
      ready none,
      registered r,
      ground (arith, e),
      ground arith,
      ground (arith, stored-none r empty e h),
    )
    | inr more ↦ (
      pending,
      registered r,
      ground (arith, e),
      ground arith,
      ground (arith, stored-none r empty e h),
    )
  ]

  find_next-Answers : (r : Receiver T) → r.buffer ≡ [] → IsValid r → Answers r (find_next r)
  unfolding find_next
  find_next-Answers r empty h = elim (Option-cases (race_find_dirty r.shared r.cursor)) [
    | inl e ↦ rw (e, find_next) (double_check-Answers r empty e h)
    | inr (k, e) ↦ rw (e, find_next) (found-Answers r k empty e h)
  ]

  poll_next_on-Answers :
      (vs : List T) (r : Receiver T) → r.buffer ≡ vs → IsValid r → Answers r (poll_next_on vs r)
  unfolding poll_next_on
  poll_next_on-Answers [] r e h = find_next-Answers r e h
  poll_next_on-Answers (v ∷ rest) r e h = Takes-Answers r v _ (pop_buffer-Takes r v rest e h)

  -- A poll of a valid receiver never panics and leaves it valid. It answers `Ready(Some(v))` with
  -- one value fewer stored, `Ready(None)` only with nothing stored and no sender left, and
  -- `Pending` only with nothing stored, a sender left, and its waker registered in this poll.
  pub poll_next-Answers : (r : Receiver T) → IsValid r → Answers r (poll_next r)
  unfolding poll_next
  poll_next-Answers r h = poll_next_on-Answers r.buffer r refl h
