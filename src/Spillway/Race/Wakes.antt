-- ===== src/Spillway/Race/Wakes.antt =====
-- No wake is lost (spillway/src/receiver.rs, poll_next, beside spillway/src/shared.rs and sender.rs).
use protosocket.Prelude.{
  ℕ, ◌<◌, ◌≡◌, ◌≢◌, ◌⊎◌, inl, inr, refl, sym, ap, subst, ◌∙◌, true, false, [], length, get_elem?,
  some, arith, length-replicate, get_elem?-lt, get_elem?-replicate,
}
use mathlib.Core.Option.{some_inj}
use protosocket.Spillway.Chute
use protosocket.Spillway.Contents.{round_trip}
use protosocket.Spillway.Race.{
  Holder, free, extended, marked, Cell, Race, Place, resting, parked, initial, wake, Reach, start,
  sent, received,
}
use protosocket.Spillway.Race.Watching.{IsSound, IsQuiet, Inv, SenderStep-Inv}
use protosocket.Spillway.Race.Looking.{receive-Inv}

module _ {ℓ} {T : Type ℓ} where
  initial-Inv : (n : ℕ) → 0 < n → Inv resting (initial {T = T} n)
  unfolding initial Chute.default
  initial-Inv n h = record {
    inside = omega (arith, length-replicate {A = Cell T} n);
    sound = λ i c at.
        let e : c ≡ record { chute = Chute.default; holder = free } = some_inj.0 (
          sym at
          ∙ get_elem?-replicate n i (record { chute = Chute.default; holder = free })
              (subst (λ m. i < m)
                (length-replicate n (record { chute = Chute.default; holder = free }))
                (get_elem?-lt (initial n).cells i at))) in
        λ _ _. ap (λ d. d.chute.queue) e;
    watch = tt;
    drained = tt;
  }

  Reach-Inv : (n : ℕ) → 0 < n → {p : Place} {s : Race T} → Reach n p s → Inv p s
  Reach-Inv n h start = initial-Inv n h
  Reach-Inv n h (sent r st) = SenderStep-Inv _ st (Reach-Inv n h r)
  Reach-Inv n h (received r e) = receive-Inv _ _ (Reach-Inv n h r) _ _ e

  settled :
      (c : Cell T) (holder : Holder)
      → c.holder ≡ holder
      → IsSound c
      → IsQuiet c
      → (c.chute.queue ≡ []) ⊎ (c.holder ≢ free)
  settled c free e h (inl clean) = inl (h clean (λ g. ground (arith, e, g)))
  settled c free e h (inr m) = absurd (ground (arith, e, m))
  settled c extended e h q = inr (λ g. ground (arith, e, g))
  settled c marked e h q = inr (λ g. ground (arith, e, g))

  -- When a poll has left the receiver parked and its task has not been woken since, a wake reaches it,
  -- each chute is empty or is locked by a send that has its wake before it, and there is a sender, or
  -- the last one has its wake before it. The channel has at least one chute, and is unbounded.
  pub parked-IsDue :
      (n : ℕ) {s : Race T}
      → 0 < n
      → Reach n parked s
      → s.scheduled ≡ false
      → ((i : ℕ) (c : Cell T)
          → get_elem? s.cells i ≡ some c
          → (c.chute.queue ≡ []) ⊎ (c.holder ≢ free))
        × ((0 < s.senders) ⊎ (s.leaving ≡ true))
        × ((wake s).scheduled ≡ true)
  unfolding wake
  parked-IsDue n {s} h r asleep =
      let v = Reach-Inv n h r in
      (
        λ i c at. elim v.watch.0.quiet [
          | inl w ↦ absurd (ground (arith, w, asleep))
          | inr q ↦
              let (k, lt, e) =
                round_trip s.cursor i (length s.cells) v.inside (get_elem?-lt s.cells i at) in
              settled c c.holder refl (v.sound i c at)
                (q k lt c (subst (λ j. get_elem? s.cells j ≡ some c) (sym e) at))
        ],
        elim v.watch.1 [ inl w ↦ absurd (ground (arith, w, asleep)) | inr there ↦ there ],
        ground (arith, v.watch.0.armed, asleep),
      )
