-- ===== src/Spillway/EmptyBatch.antt =====
-- An empty batch (spillway/src/shared.rs, send_many): it marks an empty chute dirty, and the receiver
-- trusts the mark.
use protosocket.Prelude.{
  ℕ, ◌+◌, ◌<◌, ◌≡◌, inl, inr, ap, ◌∙◌, true, false, Option-cases, List, [], length, get_elem?, none,
  some, arith, length-eq-zero, get_elem?-set_self, length-set,
}
use native.Mathlib.Decide.{ℕ_discrete}
use protosocket.Prelude.Word.{u64_max}
use protosocket.Spillway.Chute.{Chute}
use protosocket.Spillway.Shared
use protosocket.Spillway.Shared.{
  Shared, send_many, send_many_infallible, race_find_dirty, find_dirty, deliver, reserve,
}
use protosocket.Spillway.Contents.{
  stored_in, stored_in-set, stored_in-zero, find_dirty-there, find_dirty-none_all,
}
use protosocket.Spillway.Enqueue.{extended, send_many_infallible-Enqueues}
use protosocket.Spillway.Sending.{reserve_unbounded, reserve_room, send_many_open, reserved}
use protosocket.Spillway.Receiver.{
  Receiver, pop_buffer, take_chute, find_next, poll_next_on, poll_next,
}
use protosocket.Spillway.Receiver.Validity.{stored, IsValid, take_chute_lem}

module _ {ℓ} {T : Type ℓ} (r : Receiver T) (empty : r.buffer ≡ []) where
  take_chute_empty :
      (k : ℕ) (c : Chute T)
      → get_elem? r.shared.chutes k ≡ some c
      → c.queue ≡ []
      → take_chute r k ≡ none
  unfolding pop_buffer
  take_chute_empty k c at held = take_chute_lem r k c empty at held

  find_next_panics :
      (k : ℕ)
      → race_find_dirty r.shared r.cursor ≡ some k
      → stored_in r.shared.chutes ≡ 0
      → find_next r ≡ none
  unfolding find_next race_find_dirty
  find_next_panics k e z =
      let (c, at, d) = find_dirty-there r.shared.chutes r.cursor e in
      rw (e, find_next) (take_chute_empty k c at (stored_in-zero r.shared.chutes k z at))

  -- A dirty chute and no value make the next poll panic.
  poll_next_panics :
      (j : ℕ)
      → r.cursor < length r.shared.chutes
      → j < length r.shared.chutes
      → Shared.is_dirty r.shared.chutes j ≡ true
      → stored_in r.shared.chutes ≡ 0
      → poll_next r ≡ none
  unfolding poll_next poll_next_on race_find_dirty
  poll_next_panics j lt lt' dirty z =
      ap (λ vs. poll_next_on vs r) empty ∙ elim (Option-cases (race_find_dirty r.shared r.cursor)) [
        | inl e ↦ absurd (ground (arith, find_dirty-none_all r.shared.chutes r.cursor lt e j lt'))
        | inr (k, e) ↦ find_next_panics k e z
      ]

module _ {ℓ} {T : Type ℓ} (r : Receiver T) (chute : ℕ) where
  Poisons : Shared.Sent (List T) T → Type ℓ
  Poisons o =
      (s' : Shared T) × (o ≡ some (none, s')) × (poll_next (record r { shared = s' }) ≡ none)

  delivered_empty :
      (size : ℕ)
      → stored r ≡ 0
      → chute < length r.shared.chutes
      → IsValid r
      → Poisons (deliver [] chute [] (true, reserved r size))
  unfolding Poisons
  delivered_empty size z lt h =
      let (c, s', at, e, q) =
        send_many_infallible-Enqueues (reserved r size) chute [] h.marked lt in
      let none_left : c.queue ≡ [] = stored_in-zero r.shared.chutes chute (omega arith) at in
      (
        s',
        rw (e, deliver),
        poll_next_panics (record r { shared = s' }) (length-eq-zero r.buffer (omega arith)) chute
            (omega (
              arith,
              h.in_range,
              ap length q.chutes_set,
              length-set r.shared.chutes chute (extended c []),
            ))
            (omega
              (arith, lt, ap length q.chutes_set, length-set r.shared.chutes chute (extended c [])))
            (rw q.chutes_set
              (rw (get_elem?-set_self r.shared.chutes chute (extended c []) lt, Shared.is_dirty)))
            (ground (
              arith,
              none_left,
              ap stored_in q.chutes_set,
              stored_in-set r.shared.chutes chute (extended c []) at,
            )),
      )

  -- On a valid open channel with nothing in it, a batch of no values is accepted, and after it the
  -- receiver's next poll panics, whatever the capacity and the chute.
  pub empty_batch_panics :
      r.shared.dead ≡ false
      → stored r ≡ 0
      → chute < length r.shared.chutes
      → IsValid r
      → (s' : Shared T) × (send_many r.shared chute [] ≡ some (none, s'))
        × (poll_next (record r { shared = s' }) ≡ none)
  unfolding Poisons
  empty_batch_panics open_ z lt h =
      rw (send_many_open r.shared chute [] open_) (elim (ℕ_discrete r.shared.capacity u64_max) [
        | yes e ↦ rw (reserve_unbounded r.shared 0 e) (delivered_empty r.shared.channel_size z lt h)
        | no n ↦
            rw (reserve_room r.shared 0 n h.small (omega (arith, h.counted n, h.bounded n)))
              (delivered_empty (r.shared.channel_size + 0) z lt h)
      ])
