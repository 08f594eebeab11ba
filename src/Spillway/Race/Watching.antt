-- ===== src/Spillway/Race/Watching.antt =====
-- What the receiver of a channel knows while it looks (spillway/src/receiver.rs, poll_next), and
-- that no step of a sender takes it away.
use protosocket.Prelude.{
  ℕ, suc, ◌+◌, ◌%◌, ◌<◌, ◌≡◌, ◌≢◌, ◌⊎◌, inl, inr, refl, sym, ap, subst, ◌∙◌, Bool, true, false,
  ◌||◌, ◌==◌, Bool-cases, List, [], length, get_elem?, set, some, arith, length-set,
  get_elem?-set_self, get_elem?-set_ne, get_elem?-lt,
}
use native.Mathlib.Decide.{ℕ_discrete}
use protosocket.Spillway.Race.{
  free, extended, marked, Cell, Race, Place, resting, registering, counting, parked, ended,
  panicked, first, second, taking, wake, extend, mark, release, SenderStep, extend_step, mark_step,
  wake_step, clone_step, drop_step, drop_last_step, wake_last_step,
}

module _ {ℓ} {T : Type ℓ} where
  -- A clean chute has no value, unless a sender is about to mark it.
  abbrev pub IsSound : Cell T → Type ℓ
  IsSound c = c.chute.clean ≡ true → c.holder ≢ extended → c.chute.queue ≡ []

  abbrev pub AllSound : List (Cell T) → Type ℓ
  AllSound cs = (i : ℕ) (c : Cell T) → get_elem? cs i ≡ some c → IsSound c

  -- The chute is clean, or its sender is about to wake the receiver.
  abbrev pub IsQuiet : Cell T → Type 0
  IsQuiet c = (c.chute.clean ≡ true) ⊎ (c.holder ≡ marked)

  abbrev pub QuietTo : List (Cell T) → ℕ → ℕ → Type ℓ
  QuietTo cs cursor i =
      (k : ℕ) → k < i → (c : Cell T) → get_elem? cs ((cursor + k) % length cs) ≡ some c → IsQuiet c

  -- After the receiver has registered and looked at `i` chutes: it is woken, or will be.
  pub record Looked (cs : List (Cell T)) (cursor : ℕ) (registered scheduled : Bool) (i : ℕ)
      : Type ℓ where
    pub armed : (registered ≡ true) ⊎ (scheduled ≡ true)
    pub quiet : (scheduled ≡ true) ⊎ QuietTo cs cursor i

  abbrev pub Watch : Place → Race T → Type ℓ
  Watch (second i) s = Looked s.cells s.cursor s.registered s.scheduled i
  Watch counting s = Looked s.cells s.cursor s.registered s.scheduled (length s.cells)
  Watch parked s =
      Looked s.cells s.cursor s.registered s.scheduled (length s.cells)
      × ((s.scheduled ≡ true) ⊎ ((0 < s.senders) ⊎ (s.leaving ≡ true)))
  Watch _ s = Unit

  -- The receiver looks for a chute only when its buffer is empty.
  abbrev pub IsDrained : Place → Race T → Type ℓ
  IsDrained (first i) s = s.buffer ≡ []
  IsDrained registering s = s.buffer ≡ []
  IsDrained (second i) s = s.buffer ≡ []
  IsDrained counting s = s.buffer ≡ []
  IsDrained (taking i) s = s.buffer ≡ []
  IsDrained _ s = Unit

  pub record Inv (p : Place) (s : Race T) : Type ℓ where
    pub inside : s.cursor < length s.cells
    pub sound : AllSound s.cells
    pub watch : Watch p s
    pub drained : IsDrained p s

  pub AllSound-set :
      (cs : List (Cell T)) (i : ℕ) (c : Cell T) → IsSound c → AllSound cs → AllSound (set cs i c)
  AllSound-set cs i c hc h j d e = elim (ℕ_discrete i j) [
    | yes p ↦
        let lt : i < length cs =
          subst (λ k. k < length cs) (sym p)
            (subst (λ k. j < k) (length-set cs i c) (get_elem?-lt (set cs i c) j e)) in
        let at : get_elem? (set cs i c) i ≡ some c = get_elem?-set_self cs i c lt in
        let same : c ≡ d = ground (arith, at, e, p) in subst IsSound same hc
    | no ne ↦ h j d (sym (get_elem?-set_ne cs c ne) ∙ e)
  ]

  QuietTo-set :
      (cs : List (Cell T)) (cursor i : ℕ) (c c' : Cell T)
      → get_elem? cs i ≡ some c
      → (IsQuiet c → IsQuiet c')
      → (m : ℕ) → QuietTo cs cursor m
      → QuietTo (set cs i c') cursor m
  QuietTo-set cs cursor i c c' at keep m h k lt d e =
      let j = (cursor + k) % length cs in
      let e' : get_elem? (set cs i c') j ≡ some d =
        subst (λ n. get_elem? (set cs i c') ((cursor + k) % n) ≡ some d) (length-set cs i c') e in
      elim (ℕ_discrete i j) [
        | yes p ↦
            let was : get_elem? cs j ≡ some c = subst (λ n. get_elem? cs n ≡ some c) p at in
            let now : get_elem? (set cs i c') i ≡ some c' =
              get_elem?-set_self cs i c' (get_elem?-lt cs i at) in
            let same : c' ≡ d = ground (arith, now, e', p) in
            subst IsQuiet same (keep (h k lt c was))
        | no ne ↦ h k lt d (sym (get_elem?-set_ne cs c' ne) ∙ e')
      ]

  Looked-set :
      (cs : List (Cell T)) (cursor i : ℕ) (c c' : Cell T) (registered scheduled : Bool)
      → get_elem? cs i ≡ some c
      → (IsQuiet c → IsQuiet c')
      → (m : ℕ) → Looked cs cursor registered scheduled m
      → Looked (set cs i c') cursor registered scheduled m
  Looked-set cs cursor i c c' registered scheduled at keep m h = record {
    armed = h.armed;
    quiet = elim h.quiet [ inl w ↦ inl w | inr q ↦ inr (QuietTo-set cs cursor i c c' at keep m q) ];
  }

  -- A wake leaves nothing to watch.
  Looked-wake :
      (cs cs' : List (Cell T)) (cursor : ℕ) (registered scheduled : Bool) (m m' : ℕ)
      → Looked cs cursor registered scheduled m
      → (woken : (scheduled || registered) ≡ true) × Looked cs' cursor false
          (scheduled || registered)
          m'
  Looked-wake cs cs' cursor registered scheduled m m' h =
      let woken : (scheduled || registered) ≡ true = ground (arith, h.armed) in
      (woken, record { armed = inr woken; quiet = inl woken })

  -- A step of a sender that writes a cell, and one that wakes, keep what the receiver watches.
  Watch-set :
      (p : Place) (s : Race T) (i : ℕ) (c c' : Cell T)
      → get_elem? s.cells i ≡ some c
      → (IsQuiet c → IsQuiet c')
      → Watch p s
      → Watch p (record s { cells = set s.cells i c' })
  Watch-set (second m) s i c c' at keep h =
      Looked-set s.cells s.cursor i c c' s.registered s.scheduled at keep m h
  Watch-set counting s i c c' at keep h =
      rw (length-set s.cells i c')
        (Looked-set s.cells s.cursor i c c' s.registered s.scheduled at keep (length s.cells) h)
  Watch-set parked s i c c' at keep h = (
    rw (length-set s.cells i c')
        (Looked-set s.cells s.cursor i c c' s.registered s.scheduled at keep (length s.cells) h.0),
    h.1,
  )
  Watch-set resting s i c c' at keep h = tt
  Watch-set (first m) s i c c' at keep h = tt
  Watch-set registering s i c c' at keep h = tt
  Watch-set (taking m) s i c c' at keep h = tt
  Watch-set ended s i c c' at keep h = tt
  Watch-set panicked s i c c' at keep h = tt

  Watch-wake :
      (p : Place) (s : Race T) (cs : List (Cell T)) (leaving : Bool)
      → Watch p s
      → Watch p (wake (record s { cells = cs; leaving = leaving }))
  unfolding wake
  Watch-wake (second m) s cs l h =
      (Looked-wake s.cells cs s.cursor s.registered s.scheduled m m h).1
  Watch-wake counting s cs l h =
      (Looked-wake s.cells cs s.cursor s.registered s.scheduled (length s.cells) (length cs) h).1
  Watch-wake parked s cs l h =
      let (woken, looked) =
        Looked-wake s.cells cs s.cursor s.registered s.scheduled (length s.cells) (length cs) h.0 in
      (looked, inl woken)
  Watch-wake resting s cs l h = tt
  Watch-wake (first m) s cs l h = tt
  Watch-wake registering s cs l h = tt
  Watch-wake (taking m) s cs l h = tt
  Watch-wake ended s cs l h = tt
  Watch-wake panicked s cs l h = tt

  -- So does one that counts the senders, if it leaves one or is the last to go.
  Watch-count :
      (p : Place) (s : Race T) (senders : ℕ) (leaving : Bool)
      → (0 < senders) ⊎ (leaving ≡ true)
      → Watch p s
      → Watch p (record s { senders = senders; leaving = leaving })
  Watch-count (second m) s n l k h = h
  Watch-count counting s n l k h = h
  Watch-count parked s n l k h = (h.0, inr k)
  Watch-count resting s n l k h = tt
  Watch-count (first m) s n l k h = tt
  Watch-count registering s n l k h = tt
  Watch-count (taking m) s n l k h = tt
  Watch-count ended s n l k h = tt
  Watch-count panicked s n l k h = tt

  IsDrained-of : (p : Place) (s t : Race T) → t.buffer ≡ s.buffer → IsDrained p s → IsDrained p t
  IsDrained-of (first i) s t e h = e ∙ h
  IsDrained-of registering s t e h = e ∙ h
  IsDrained-of (second i) s t e h = e ∙ h
  IsDrained-of counting s t e h = e ∙ h
  IsDrained-of (taking i) s t e h = e ∙ h
  IsDrained-of resting s t e h = tt
  IsDrained-of parked s t e h = tt
  IsDrained-of ended s t e h = tt
  IsDrained-of panicked s t e h = tt

  extend-IsSound : (c : Cell T) (vs : List T) → c.holder ≡ free → IsSound c → IsSound (extend c vs)
  unfolding extend
  extend-IsSound c vs f h clean ne = elim (Bool-cases (length c.chute.queue == 0)) [
    | inl e ↦ absurd (ne (rw e refl))
    | inr e ↦
        let empty : c.chute.queue ≡ [] = h clean (λ g. ground (arith, f, g)) in
        absurd (ground (arith, e, ap length empty))
  ]

  pub SenderStep-Inv : (p : Place) {s t : Race T} → SenderStep s t → Inv p s → Inv p t
  unfolding extend mark release wake
  SenderStep-Inv p {s} (extend_step i c vs some_sender at f) h = record {
    inside = rw (length-set s.cells i (extend c vs)) h.inside;
    sound = AllSound-set s.cells i (extend c vs) (extend-IsSound c vs f (h.sound i c at)) h.sound;
    watch = Watch-set p s i c (extend c vs) at (λ q. ground (arith, q, f)) h.watch;
    drained = IsDrained-of p s (record s { cells = set s.cells i (extend c vs) }) refl h.drained;
  }
  SenderStep-Inv p {s} (mark_step i c at f) h = record {
    inside = rw (length-set s.cells i (mark c)) h.inside;
    sound = AllSound-set s.cells i (mark c) (λ e. cc) h.sound;
    watch = Watch-set p s i c (mark c) at (λ q. inr refl) h.watch;
    drained = IsDrained-of p s (record s { cells = set s.cells i (mark c) }) refl h.drained;
  }
  SenderStep-Inv p {s} (wake_step i c at f) h = record {
    inside = rw (length-set s.cells i (release c)) h.inside;
    sound =
        AllSound-set s.cells i (release c) (λ e ne. h.sound i c at e (λ g. ground (arith, f, g)))
          h.sound;
    watch = Watch-wake p s (set s.cells i (release c)) s.leaving h.watch;
    drained =
        IsDrained-of p s (wake (record s { cells = set s.cells i (release c) })) refl h.drained;
  }
  SenderStep-Inv p {s} (clone_step some_sender few) h = record {
    inside = h.inside;
    sound = h.sound;
    watch = Watch-count p s (s.senders + 1) s.leaving (inl (omega arith)) h.watch;
    drained =
        IsDrained-of p s (record s { senders = (s.senders + 1); leaving = s.leaving }) refl
          h.drained;
  }
  SenderStep-Inv p {s} (drop_step n e) h = record {
    inside = h.inside;
    sound = h.sound;
    watch = Watch-count p s (suc n) s.leaving (inl (omega arith)) h.watch;
    drained = IsDrained-of p s (record s { senders = (suc n); leaving = s.leaving }) refl h.drained;
  }
  SenderStep-Inv p {s} (drop_last_step e f) h = record {
    inside = h.inside;
    sound = h.sound;
    watch = Watch-count p s 0 true (inr refl) h.watch;
    drained = IsDrained-of p s (record s { senders = 0; leaving = true }) refl h.drained;
  }
  SenderStep-Inv p {s} (wake_last_step e) h = record {
    inside = h.inside;
    sound = h.sound;
    watch = Watch-wake p s s.cells false h.watch;
    drained = IsDrained-of p s (wake (record s { leaving = false })) refl h.drained;
  }
