-- ===== src/Spillway/Sending.antt =====
-- What a send does to a valid channel (spillway/src/shared.rs, send and send_many).
use protosocket.Prelude.{
  ℕ, ◌+◌, ◌^◌, ◌≤◌, ◌<◌, ◌≡◌, ◌≢◌, ◌⊎◌, inl, inr, refl, sym, ap, ◌∙◌, true, false, List, [], ◌∷◌,
  ◌++◌, length, get_elem?, none, some, arith, length-append, length-set,
}
use native.Mathlib.Decide.{dec_le, ℕ_discrete}
use protosocket.Prelude.Word.{sub64, u64_max, add64_small}
use protosocket.Spillway.Chute.{Chute}
use protosocket.Spillway.Shared.{Shared, Sent, full, wake, reserve, deliver, send, send_many}
use protosocket.Spillway.Contents.{
  queue_at, queue_at-some, queue_at-set_self, queue_at-set_ne, stored_in, AllMarked-set,
  stored_in-set,
}
use protosocket.Spillway.Receiver.{Receiver}
use protosocket.Spillway.Receiver.Validity.{stored, IsValid}
use protosocket.Spillway.Enqueue.{
  extended, extended-IsMarked, Enqueues, send_many_infallible-Enqueues,
}

module _ {ℓ} {T : Type ℓ} where
  pub reserve_unbounded : (s : Shared T) (n : ℕ) → s.capacity ≡ u64_max → reserve s n ≡ (true, s)
  unfolding reserve
  reserve_unbounded s n e = ground arith

  pub reserve_room :
      (s : Shared T) (n : ℕ)
      → s.capacity ≢ u64_max
      → s.capacity ≤ u64_max
      → s.channel_size + n ≤ s.capacity
      → reserve s n ≡ (true, record s { channel_size = s.channel_size + n })
  unfolding reserve
  reserve_room s n b small h = rw (add64_small s.channel_size n (omega arith)) (ground arith)

  -- The room that was taken is given back.
  reserve_full :
      (s : Shared T) (n : ℕ)
      → s.capacity ≢ u64_max
      → s.capacity < s.channel_size + n
      → s.channel_size + n < 2 ^ 64
      → reserve s n ≡ (false, s)
  unfolding reserve
  reserve_full s n b h small = rw (add64_small s.channel_size n small) (
      let back : sub64 (s.channel_size + n) n ≡ s.channel_size = omega arith in
      ground (arith, back))

  -- What a successful send of `values` to the chute `chute` has done.
  pub record Delivers (r : Receiver T) (chute : ℕ) (values : List T) (s' : Shared T) : Type ℓ where
    pub valid : IsValid (record r { shared = s' })
    pub grown : stored (record r { shared = s' }) ≡ stored r + length values
    pub queued : queue_at s'.chutes chute ≡ queue_at r.shared.chutes chute ++ values
    pub others : (k : ℕ) → chute ≢ k → queue_at s'.chutes k ≡ queue_at r.shared.chutes k
    pub woken : queue_at r.shared.chutes chute ≡ [] → s'.waker ≡ wake ∷ r.shared.waker

  abbrev pub HasRoom : Receiver T → ℕ → Type 0
  HasRoom r n = (r.shared.capacity ≡ u64_max) ⊎ (stored r + n ≤ r.shared.capacity)

  -- The shared state once room for the send is taken.
  abbrev pub reserved : Receiver T → ℕ → Shared T
  reserved r size = record (r.shared) { channel_size = size }

  module _ (r : Receiver T) (chute : ℕ) (values : List T) (size : ℕ) (s' : Shared T)
      (c : Chute T) where
    enqueued-stored :
        get_elem? r.shared.chutes chute ≡ some c
        → Enqueues (reserved r size) chute c values s'
        → stored (record r { shared = s' }) ≡ stored r + length values
    enqueued-stored at q = omega (
      arith,
      ap stored_in q.chutes_set,
      stored_in-set r.shared.chutes chute (extended c values) at,
      length-append c.queue values,
    )

    enqueued-IsValid :
        values ≢ []
        → IsValid r
        → (r.shared.capacity ≢ u64_max → size ≡ stored r + length values)
        → HasRoom r (length values)
        → get_elem? r.shared.chutes chute ≡ some c
        → Enqueues (reserved r size) chute c values s'
        → IsValid (record r { shared = s' })
    enqueued-IsValid some_values h count room at q =
        let grown = enqueued-stored at q in
        record {
          in_range = omega (
            arith,
            h.in_range,
            ap length q.chutes_set,
            length-set r.shared.chutes chute (extended c values),
          );
          marked = rw q.chutes_set (
              AllMarked-set r.shared.chutes chute _ (extended-IsMarked c values some_values)
                h.marked);
          small = omega (arith, h.small, q.same_capacity);
          counted = λ n. ground (arith, q.same_size, grown, count (rw q.same_capacity at n));
          bounded = λ n. ground (arith, grown, q.same_capacity, room);
        }

    Enqueues-Delivers :
        values ≢ []
        → IsValid r
        → (r.shared.capacity ≢ u64_max → size ≡ stored r + length values)
        → HasRoom r (length values)
        → get_elem? r.shared.chutes chute ≡ some c
        → Enqueues (reserved r size) chute c values s'
        → Delivers r chute values s'
    Enqueues-Delivers some_values h count room at q = record {
      valid = enqueued-IsValid some_values h count room at q;
      grown = enqueued-stored at q;
      queued = rw q.chutes_set (
          rw (queue_at-set_self r.shared.chutes chute (extended c values) at)
            (rw (queue_at-some r.shared.chutes chute at)));
      others = λ k ne. rw q.chutes_set (queue_at-set_ne r.shared.chutes (extended c values) ne);
      woken = λ e. q.woken (sym (queue_at-some r.shared.chutes chute at) ∙ e);
    }

  -- A send either fits and delivers its values, or is refused and changes nothing.
  abbrev pub Sends {κ} : {A : Type κ} → Receiver T → ℕ → A → List T → Sent A T → Type (ℓ ⊔ κ)
  Sends r chute v values o =
      (HasRoom r (length values)
        × (s' : Shared T) × (o ≡ some (none, s'))
        × Delivers r chute values s')
      ⊎ ((r.shared.capacity ≢ u64_max)
          × (r.shared.capacity < stored r + length values)
          × (o ≡ some (some (full v), r.shared)))

  deliver_taken :
      {A : Type ℓ} (v : A) (r : Receiver T) (chute : ℕ) (values : List T) (size : ℕ)
      → chute < length r.shared.chutes
      → values ≢ []
      → IsValid r
      → (r.shared.capacity ≢ u64_max → size ≡ stored r + length values)
      → HasRoom r (length values)
      → Sends r chute v values (deliver v chute values (true, reserved r size))
  deliver_taken v r chute values size lt some_values h count room =
      let (c, s', at, e, q) =
        send_many_infallible-Enqueues (reserved r size) chute values h.marked lt in
      inl (
        room,
        s',
        rw (e, deliver),
        Enqueues-Delivers r chute values size s' c some_values h count room at q,
      )

  module _ {A : Type ℓ} (v : A) (r : Receiver T) (chute : ℕ) (values : List T) where
    pub deliver-Sends :
        chute < length r.shared.chutes
        → values ≢ []
        → stored r + length values < 2 ^ 64
        → IsValid r
        → Sends r chute v values (deliver v chute values (reserve r.shared (length values)))
    deliver-Sends lt some_values small h = elim (ℕ_discrete r.shared.capacity u64_max) [
      | yes e ↦ rw (reserve_unbounded r.shared (length values) e) (
          deliver_taken v r chute values r.shared.channel_size lt some_values h (λ n. absurd (n e))
            (inl e))
      | no n ↦ elim (dec_le (stored r + length values) r.shared.capacity) [
        | yes fits ↦
            rw (reserve_room r.shared (length values) n h.small (ground (arith, h.counted n))) (
              deliver_taken v r chute values (r.shared.channel_size + length values) lt some_values
                h (λ n. ground (arith, h.counted n)) (inr fits))
        | no over ↦
            rw
              (reserve_full r.shared (length values) n (ground (arith, h.counted n))
                (ground (arith, h.counted n)))
              (inr (n, omega arith, refl))
      ]
    ]

  pub send_many_open :
      (s : Shared T) (chute : ℕ) (values : List T)
      → s.dead ≡ false
      → send_many s chute values ≡ deliver values chute values (reserve s (length values))
  unfolding send_many
  send_many_open s chute values e = ground (arith, e)

  send_open :
      (s : Shared T) (chute : ℕ) (value : T)
      → s.dead ≡ false
      → send s chute value ≡ deliver value chute (value ∷ []) (reserve s 1)
  unfolding send
  send_open s chute value e = ground (arith, e)

  module _ (r : Receiver T) (chute : ℕ) where
    -- A batch of one value at least, sent into a chute that is there of a valid open channel, with
    -- fewer than 2 ^ 64 values stored and sent in all, either fits, and then its values go to the
    -- end of the sender's chute, no other chute changes, and the receiver is woken if that chute
    -- was empty; or it is over the capacity, and then it is handed back and the channel is as it
    -- was.
    pub send_many-Sends :
        (values : List T)
        → r.shared.dead ≡ false
        → chute < length r.shared.chutes
        → values ≢ []
        → stored r + length values < 2 ^ 64
        → IsValid r
        → Sends r chute values values (send_many r.shared chute values)
    send_many-Sends values open_ lt some_values small h =
        rw (send_many_open r.shared chute values open_)
          (deliver-Sends values r chute values lt some_values small h)

    pub send-Sends :
        (value : T)
        → r.shared.dead ≡ false
        → chute < length r.shared.chutes
        → stored r + 1 < 2 ^ 64
        → IsValid r
        → Sends r chute value (value ∷ []) (send r.shared chute value)
    send-Sends value open_ lt small h =
        rw (send_open r.shared chute value open_)
          (deliver-Sends value r chute (value ∷ []) lt (λ e. cc) small h)
