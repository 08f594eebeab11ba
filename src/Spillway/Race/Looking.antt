-- ===== src/Spillway/Race/Looking.antt =====
-- The steps of the receiver (spillway/src/receiver.rs, poll_next) keep what it knows.
use protosocket.Prelude.{
  ℕ, suc, ◌+◌, ◌%◌, ◌<◌, ◌≡◌, inl, inr, refl, subst, true, false, not, if◌then◌else◌, ltb, ltb→le,
  ◌==◌, Bool-cases, Option-cases, List, [], ◌∷◌, length, get_elem?, set, some, arith, length-set,
}
use mathlib.Core.Option.{some_inj}
use native.Mathlib.Nat.{mod-lt}
use native.Mathlib.Decide.{dec_lt}
use protosocket.Spillway.Race.{
  Holder, free, extended, marked, Cell, Race, Place, resting, registering, counting, parked, ended,
  panicked, first, second, taking, is_dirty, look, pop, swap, begin, receive,
}
use protosocket.Spillway.Race.Watching.{AllSound, IsQuiet, QuietTo, Inv, AllSound-set}

module _ {ℓ} {T : Type ℓ} where
  arrives :
      {o : Place × Race T} (q : Place) (t : Race T) → Inv o.0 o.1 → some o ≡ some (q, t) → Inv q t
  arrives q t h e = subst (λ r. Inv r.0 r.1) (some_inj.0 e) h

  -- A poll that takes a chute, or goes back to rest, watches nothing.
  taking-Inv :
      (j : ℕ) (s : Race T)
      → s.buffer ≡ []
      → (s.cursor < length s.cells)
      → AllSound s.cells
      → Inv (taking j) s
  taking-Inv j s empty inside sound = record {
    inside = inside;
    sound = sound;
    watch = tt;
    drained = empty;
  }

  look-Inv : (i : ℕ) (s : Race T) → Inv (first i) s → Inv (look s i first registering) s
  unfolding look
  look-Inv i s h =
      let next : Inv (first (suc i)) s = record {
        inside = h.inside;
        sound = h.sound;
        watch = tt;
        drained = h.drained;
      } in
      let over : Inv registering s = record {
        inside = h.inside;
        sound = h.sound;
        watch = tt;
        drained = h.drained;
      } in
      let j = (s.cursor + i) % length s.cells in
      elim (Bool-cases (ltb i (length s.cells))) [
        | inr e ↦ rw e over
        | inl e ↦ rw e (elim (Bool-cases (is_dirty (get_elem? s.cells j))) [
          | inl d ↦ rw d (taking-Inv j s h.drained h.inside h.sound)
          | inr d ↦ rw d next
        ])
      ]

  clean-IsQuiet :
      (cs : List (Cell T)) (j : ℕ) (c : Cell T)
      → is_dirty (get_elem? cs j) ≡ false
      → get_elem? cs j ≡ some c
      → IsQuiet c
  clean-IsQuiet cs j c e at =
      let e' : not c.chute.clean ≡ false = subst (λ o. is_dirty o ≡ false) at e in
      inl (ground (arith, e'))

  QuietTo-suc :
      (cs : List (Cell T)) (cursor i : ℕ)
      → is_dirty (get_elem? cs ((cursor + i) % length cs)) ≡ false
      → QuietTo cs cursor i
      → QuietTo cs cursor (suc i)
  QuietTo-suc cs cursor i e h k lt c at = elim (dec_lt k i) [
    | yes below ↦ h k below c at
    | no last ↦
        let same : k ≡ i = omega arith in
        clean-IsQuiet cs ((cursor + i) % length cs) c e
          (subst (λ n. get_elem? cs ((cursor + n) % length cs) ≡ some c) same at)
  ]

  look-Inv_again : (i : ℕ) (s : Race T) → Inv (second i) s → Inv (look s i second counting) s
  unfolding look
  look-Inv_again i s h =
      let j = (s.cursor + i) % length s.cells in
      elim (Bool-cases (ltb i (length s.cells))) [
        | inr e ↦ rw e (record {
          inside = h.inside;
          sound = h.sound;
          watch = record {
            armed = h.watch.armed;
            quiet = elim h.watch.quiet [
              | inl w ↦ inl w
              | inr q ↦ inr (λ k lt c at. q k (omega (arith, ltb→le i (length s.cells) e)) c at)
            ];
          };
          drained = h.drained;
        })
        | inl e ↦ rw e (elim (Bool-cases (is_dirty (get_elem? s.cells j))) [
          | inl d ↦ rw d (taking-Inv j s h.drained h.inside h.sound)
          | inr d ↦ rw d (record {
            inside = h.inside;
            sound = h.sound;
            watch = record {
              armed = h.watch.armed;
              quiet = elim h.watch.quiet [
                | inl w ↦ inl w
                | inr q ↦ inr (QuietTo-suc s.cells s.cursor i d q)
              ];
            };
            drained = h.drained;
          })
        ])
      ]

  pop-Inv :
      (s : Race T) (vs : List T)
      → s.cursor < length s.cells
      → AllSound s.cells
      → Inv (pop s vs).0 (pop s vs).1
  unfolding pop
  pop-Inv s [] inside sound = record { inside = inside; sound = sound; watch = tt; drained = tt }
  pop-Inv s (v ∷ vs) inside sound = record {
    inside = inside;
    sound = sound;
    watch = tt;
    drained = tt;
  }

  begin-Inv :
      (s : Race T) (vs : List T)
      → s.buffer ≡ vs
      → s.cursor < length s.cells
      → AllSound s.cells
      → Inv (begin s vs).0 (begin s vs).1
  unfolding begin
  begin-Inv s [] e inside sound = record { inside = inside; sound = sound; watch = tt; drained = e }
  begin-Inv s (v ∷ vs) e inside sound =
      pop-Inv (record s { scheduled = false }) (v ∷ vs) inside sound

  swap-Inv :
      (i : ℕ) (s : Race T) (c : Cell T) (holder : Holder)
      → get_elem? s.cells i ≡ some c
      → Inv (taking i) s
      → (q : Place) (t : Race T) → swap s i c holder ≡ some (q, t)
      → Inv q t
  unfolding swap
  swap-Inv i s c extended at h q t e = absurd (ground arith)
  swap-Inv i s c marked at h q t e = absurd (ground arith)
  swap-Inv i s c free at h q t e =
      let c' : Cell T = record {
        chute = record { queue = s.buffer; clean = true };
        holder = free;
      } in
      let s' : Race T = record s {
        cells = set s.cells i c';
        cursor = (i + 1) % length s.cells;
        buffer = c.chute.queue;
      } in
      let popped =
        pop-Inv s' c.chute.queue
          (rw (length-set s.cells i c') (mod-lt (i + 1) (omega (arith, h.inside))))
          (AllSound-set s.cells i c' (λ _ _. h.drained) h.sound) in
      arrives q t popped e

  counting-Inv : (s : Race T) → Inv counting s → Inv (if s.senders == 0 then ended else parked) s
  counting-Inv s h = elim (Bool-cases (s.senders == 0)) [
    | inl e ↦ rw e (record { inside = h.inside; sound = h.sound; watch = tt; drained = tt })
    | inr e ↦ rw e (record {
      inside = h.inside;
      sound = h.sound;
      watch = (h.watch, inr (inl (ground (arith, e))));
      drained = tt;
    })
  ]

  pub receive-Inv :
      (p : Place) (s : Race T)
      → Inv p s
      → (q : Place) (t : Race T) → receive p s ≡ some (q, t)
      → Inv q t
  unfolding receive
  receive-Inv resting s h q t e = arrives q t (begin-Inv s s.buffer refl h.inside h.sound) e
  receive-Inv parked s h q t e = arrives q t (begin-Inv s s.buffer refl h.inside h.sound) e
  receive-Inv (first i) s h q t e = arrives q t (look-Inv i s h) e
  receive-Inv registering s h q t e =
      arrives q t
        (record {
          inside = h.inside;
          sound = h.sound;
          watch = record { armed = inl refl; quiet = inr (λ k lt c at. absurd (omega arith)) };
          drained = h.drained;
        })
        e
  receive-Inv (second i) s h q t e = arrives q t (look-Inv_again i s h) e
  receive-Inv counting s h q t e = arrives q t (counting-Inv s h) e
  receive-Inv (taking i) s h q t e = elim (Option-cases (get_elem? s.cells i)) [
    | inl gone ↦ absurd (ground (arith, gone, e))
    | inr (c, at) ↦ swap-Inv i s c c.holder at h q t (ground (arith, at, e))
  ]
  receive-Inv ended s h q t e = absurd (ground arith)
  receive-Inv panicked s h q t e = absurd (ground arith)
