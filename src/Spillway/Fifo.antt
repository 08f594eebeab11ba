-- ===== src/Spillway/Fifo.antt =====
-- Each sender is heard in order (spillway/src/receiver.rs and shared.rs): a channel refines a family
-- of queues, one for each chute.
use protosocket.Prelude.{
  Poll, ready, pending, ℕ, ◌+◌, ◌^◌, ◌<◌, ◌≡◌, ◌≢◌, inl, inr, refl, sym, subst, ◌∙◌, true, false,
  if◌then◌else◌, ◌==◌, ==_refl, Bool-cases, Option-cases, List, [], ◌∷◌, ◌++◌, length, get_elem?,
  filterb, Option, none, some, arith, append-nil, append_assoc,
}
use native.Mathlib.Decide.{ℕ_discrete}
use protosocket.Prelude.Word.{u64_max, sub64}
use protosocket.Spillway.Chute.{Chute}
use protosocket.Spillway.Shared.{Shared, send_many, race_find_dirty}
use protosocket.Spillway.Contents.{
  queue_at, queue_at-some, queue_at-set_self, queue_at-set_ne, find_dirty-some,
}
use protosocket.Spillway.Receiver.{
  Receiver, Polled, decrement_size, pop_buffer, take_chute, double_check, find_next, poll_next_on,
  poll_next,
}
use protosocket.Spillway.Sending.{Delivers, Sends, send_many-Sends}
use protosocket.Spillway.Receiver.Validity.{stored, IsValid, taken, take_chute_lem, registered}

-- `origin v` is the chute of the sender that sent `v`.
module _ {ℓ} {T : Type ℓ} (origin : T → ℕ) where
  abbrev pub AllFrom : ℕ → List T → Type 0
  AllFrom k [] = Unit
  AllFrom k (v ∷ vs) = (origin v ≡ k) × AllFrom k vs

  -- Every chute holds values of its own senders only.
  abbrev pub IsSorted : Receiver T → Type 0
  IsSorted r = (k : ℕ) → AllFrom k (queue_at r.shared.chutes k)

  abbrev pub from : ℕ → List T → List T
  from k = filterb (λ v. origin v == k)

  -- The values sent through the chute `k` and not yet received, oldest first.
  abbrev pub queue_of : Receiver T → ℕ → List T
  queue_of r k = from k r.buffer ++ queue_at r.shared.chutes k

  from-AllFrom : (k : ℕ) (vs : List T) → AllFrom k vs → from k vs ≡ vs
  from-AllFrom k [] h = refl
  from-AllFrom k (v ∷ vs) h = ground (arith, from-AllFrom k vs h.1)

  from-AllFrom_ne : (j k : ℕ) (vs : List T) → j ≢ k → AllFrom j vs → from k vs ≡ []
  from-AllFrom_ne j k [] ne h = refl
  from-AllFrom_ne j k (v ∷ vs) ne h = ground (arith, from-AllFrom_ne j k vs ne h.1)

  AllFrom-append : (k : ℕ) (xs ys : List T) → AllFrom k xs → AllFrom k ys → AllFrom k (xs ++ ys)
  AllFrom-append k [] ys h g = g
  AllFrom-append k (x ∷ xs) ys h g = (h.0, AllFrom-append k xs ys h.1 g)

  -- Taking a chute over moves its queue into the buffer, and changes no sender's queue.
  module _ (r : Receiver T) (j : ℕ) (c : Chute T) (vs : List T) (empty : r.buffer ≡ [])
      (at : get_elem? r.shared.chutes j ≡ some c) (held : c.queue ≡ vs) (sorted : IsSorted r) where
    held_from : AllFrom j vs
    held_from = subst (AllFrom j) (queue_at-some r.shared.chutes j at ∙ held) (sorted j)

    taken_empty : queue_at (taken r j vs).shared.chutes j ≡ []
    taken_empty = queue_at-set_self r.shared.chutes j (record { queue = []; clean = true }) at

    taken_others :
        (k : ℕ) → j ≢ k → queue_at (taken r j vs).shared.chutes k ≡ queue_at r.shared.chutes k
    taken_others k = queue_at-set_ne r.shared.chutes (record { queue = []; clean = true })

    taken-queue_of_self : queue_of (taken r j vs) j ≡ queue_of r j
    taken-queue_of_self =
        rw (taken_empty, append-nil, from-AllFrom j vs held_from)
          (ground (arith, queue_at-some r.shared.chutes j at))

    pub taken-queue_of : (k : ℕ) → queue_of (taken r j vs) k ≡ queue_of r k
    taken-queue_of k = elim (ℕ_discrete j k) [
      | yes same ↦ subst (λ x. queue_of (taken r j vs) x ≡ queue_of r x) same taken-queue_of_self
      | no other ↦ rw (taken_others k other, from-AllFrom_ne j k vs other held_from) (ground arith)
    ]

    taken-IsSorted : IsSorted (taken r j vs)
    taken-IsSorted k = elim (ℕ_discrete j k) [
      | yes same ↦
          subst (λ x. AllFrom x (queue_at (taken r j vs).shared.chutes x)) same (rw taken_empty tt)
      | no other ↦ rw (taken_others k other) (sorted k)
    ]

  -- The poll that gives `v` takes it from the front of its own queue, and touches no other.
  abbrev pub TakesFront : Receiver T → Poll (Option T) → Receiver T → Type ℓ
  TakesFront r (ready (some v)) r' =
      IsSorted r'
      × ((k : ℕ) → queue_of r k ≡ (if origin v == k then v ∷ queue_of r' k else queue_of r' k))
  TakesFront r _ r' = IsSorted r' × ((k : ℕ) → queue_of r k ≡ queue_of r' k)

  pop_buffer-TakesFront :
      (r : Receiver T) (v : T) (rest : List T)
      → r.buffer ≡ v ∷ rest
      → IsSorted r
      → (r' : Receiver T) × (pop_buffer r (v ∷ rest) ≡ some (ready (some v), r'))
        × TakesFront r (ready (some v)) r'
  unfolding pop_buffer decrement_size
  pop_buffer-TakesFront r v rest e sorted = elim (Bool-cases (r.shared.capacity == u64_max)) [
    | inl b ↦ (record r { buffer = rest }, rw b, (sorted, λ k. ground arith))
    | inr b ↦ (
      record r {
        buffer = rest;
        shared = record (r.shared) { channel_size = sub64 r.shared.channel_size 1 };
      },
      rw b,
      (sorted, λ k. ground arith),
    )
  ]

  abbrev pub TakesFronts : Receiver T → Polled T → Type ℓ
  TakesFronts r o =
      (p : Poll (Option T)) × (r' : Receiver T) × (o ≡ some (p, r')) × TakesFront r p r'

  take_chute-TakesFronts :
      (r : Receiver T) (k : ℕ)
      → r.buffer ≡ []
      → race_find_dirty r.shared r.cursor ≡ some k
      → IsValid r
      → IsSorted r
      → TakesFronts r (take_chute r k)
  unfolding race_find_dirty
  take_chute-TakesFronts r k empty e h sorted =
      let (c, v, rest, at, held) = find_dirty-some r.shared.chutes r.cursor h.marked e in
      let (r', eq, w) =
        pop_buffer-TakesFront (taken r k (v ∷ rest)) v rest refl
          (taken-IsSorted r k c (v ∷ rest) empty at held sorted) in
      (
        ready (some v),
        r',
        take_chute_lem r k c empty at held ∙ eq,
        (w.0, λ i. sym (taken-queue_of r k c (v ∷ rest) empty at held sorted i) ∙ w.1 i),
      )

  double_check-TakesFronts :
      (r : Receiver T)
      → race_find_dirty r.shared r.cursor ≡ none
      → IsSorted r
      → TakesFronts r (double_check r)
  unfolding double_check race_find_dirty
  double_check-TakesFronts r e sorted = elim (Bool-cases (0 == r.shared.senders)) [
    | inl last ↦ (ready none, registered r, ground (arith, e), (sorted, λ k. refl))
    | inr more ↦ (pending, registered r, ground (arith, e), (sorted, λ k. refl))
  ]

  find_next-TakesFronts :
      (r : Receiver T) → r.buffer ≡ [] → IsValid r → IsSorted r → TakesFronts r (find_next r)
  unfolding find_next
  find_next-TakesFronts r empty h sorted = elim (Option-cases (race_find_dirty r.shared r.cursor)) [
    | inl e ↦ rw (e, find_next) (double_check-TakesFronts r e sorted)
    | inr (k, e) ↦ rw (e, find_next) (take_chute-TakesFronts r k empty e h sorted)
  ]

  poll_next_on-TakesFronts :
      (vs : List T) (r : Receiver T)
      → r.buffer ≡ vs
      → IsValid r
      → IsSorted r
      → TakesFronts r (poll_next_on vs r)
  unfolding poll_next_on
  poll_next_on-TakesFronts [] r e h sorted = find_next-TakesFronts r e h sorted
  poll_next_on-TakesFronts (v ∷ rest) r e h sorted =
      let (r', eq, w) = pop_buffer-TakesFront r v rest e sorted in (ready (some v), r', eq, w)

  -- A poll of a valid receiver whose chutes hold values of their own senders returns, and takes at
  -- most one value: the oldest that its sender's chute was given and that is not yet received. The
  -- values of every other chute keep their order, and none is lost or made up.
  pub poll_next-TakesFronts :
      (r : Receiver T) → IsValid r → IsSorted r → TakesFronts r (poll_next r)
  unfolding poll_next
  poll_next-TakesFronts r h sorted = poll_next_on-TakesFronts r.buffer r refl h sorted

  module _ (r : Receiver T) (chute : ℕ) (values : List T) (s' : Shared T)
      (own : AllFrom chute values) (sorted : IsSorted r) (d : Delivers r chute values s') where
    delivered-IsSorted : IsSorted (record r { shared = s' })
    delivered-IsSorted k = elim (ℕ_discrete chute k) [
      | yes same ↦
          subst (λ x. AllFrom x (queue_at s'.chutes x)) same
            (rw d.queued (AllFrom-append chute _ values (sorted chute) own))
      | no other ↦ rw (d.others k other) (sorted k)
    ]

    delivered-queue_of :
        (k : ℕ)
        → queue_of (record r { shared = s' }) k
          ≡ (if chute == k then queue_of r k ++ values else queue_of r k)
    delivered-queue_of k = elim (ℕ_discrete chute k) [
      | yes same ↦
          subst
            (λ x.
              queue_of (record r { shared = s' }) x
              ≡ (if chute == x then queue_of r x ++ values else queue_of r x))
            same (rw (d.queued, ==_refl chute, append_assoc))
      | no other ↦ ground (arith, d.others k other)
    ]

  Sends-Delivers :
      (r : Receiver T) (chute : ℕ) (values : List T) (s' : Shared T)
      → Sends r chute values values (some (none, s'))
      → Delivers r chute values s'
  Sends-Delivers r chute values s' (inl (room, s'', e, d)) =
      subst (Delivers r chute values) (ground (arith, e)) d
  Sends-Delivers r chute values s' (inr (bounded, over, e)) = absurd (ground (arith, e))

  -- A batch of one value at least that a valid open channel accepts, with fewer than 2 ^ 64 values
  -- stored and sent in all, goes behind the values that the sender's chute was
  -- given before, whole and in order, and leaves the queues of the other chutes as they are.
  pub send_many-queue_of :
      (r : Receiver T) (chute : ℕ) (values : List T) (s' : Shared T)
      → r.shared.dead ≡ false
      → chute < length r.shared.chutes
      → values ≢ []
      → stored r + length values < 2 ^ 64
      → AllFrom chute values
      → IsValid r
      → IsSorted r
      → send_many r.shared chute values ≡ some (none, s')
      → IsSorted (record r { shared = s' })
        × ((k : ℕ)
            → queue_of (record r { shared = s' }) k
              ≡ (if chute == k then queue_of r k ++ values else queue_of r k))
  send_many-queue_of r chute values s' open_ lt some_values small own h sorted e =
      let d = Sends-Delivers r chute values s' (
        subst (Sends r chute values values) e
          (send_many-Sends r chute values open_ lt some_values small h)) in
      (
        delivered-IsSorted r chute values s' own sorted d,
        delivered-queue_of r chute values s' own sorted d,
      )
