-- ===== src/Spillway/Race/Senders.antt =====
-- What the whole operations of a sender lead to (spillway/src/sender.rs).
use protosocket.Prelude.{
  ℕ, suc, ◌+◌, ◌-◌, ◌^◌, ◌<◌, ◌≡◌, ◌≢◌, inl, inr, refl, sym, ap, subst, ◌∙◌, Bool, false, ◌||◌,
  ◌==◌, Bool-cases, Option-cases, List, [], ◌∷◌, ◌++◌, length, get_elem?, set, none, some, arith,
  length-set, length-append,
}
use mathlib.Core.Option.{some_inj}
use protosocket.Prelude.Word.{u64_max, add64, sub64}
use protosocket.Spillway.Chute.{Chute, IsMarked}
use protosocket.Spillway.Shared
use protosocket.Spillway.Shared.{
  Shared, WakerCall, wake, send_many_infallible, notify, reserve, deliver,
}
use protosocket.Spillway.Sender
use protosocket.Spillway.Sender.{Sender}
use protosocket.Spillway.Contents.{AllMarked, AllMarked-set, AllMarked-get_elem?}
use protosocket.Spillway.Receiver.{Receiver}
use protosocket.Spillway.Receiver.Validity.{IsValid}
use protosocket.Spillway.Race
use protosocket.Spillway.Race.{
  free, Cell, Race, Place, resting, parked, initial, receive, AllFree, clone_step, drop_step,
  drop_last_step, wake_last_step, Reach, start, sent, received,
}
use protosocket.Spillway.Race.Whole.{is_registered, whole}
use protosocket.Spillway.Race.Sends.{
  with_shared, with_chute, full_chute, dirty_chute, behind, first_in, behind_Reach, first_in_Reach,
}
use protosocket.Spillway.Receiver.Cloned.{counted, clone-some}
use protosocket.Spillway.Race.Holding.{after, after_none, after-wake, Holds, free_cells-AllFree}

module _ {ℓ} {T : Type ℓ} where
  -- A batch goes to a chute that is there, and no room is taken for it.
  pub batch_goes :
      (me : Sender) (s s' : Shared T) (values : List T)
      → s.capacity ≡ u64_max
      → s.dead ≡ false
      → Sender.send_many me s values ≡ some (none, s')
      → send_many_infallible s me.chute values ≡ some s'
  unfolding Sender.send_many Shared.send_many reserve
  batch_goes me s s' values unbounded alive e =
      elim (Option-cases (send_many_infallible s me.chute values)) [
        | inl gone ↦ absurd (ground (arith, unbounded, alive, e, gone))
        | inr (s1, kept) ↦ ground (arith, unbounded, alive, e, kept)
      ]

  pub there :
      (s s' : Shared T) (i : ℕ) (values : List T)
      → send_many_infallible s i values ≡ some s'
      → (c : Chute T) × (get_elem? s.chutes i ≡ some c)
  unfolding send_many_infallible
  there s s' i values e = elim (Option-cases (get_elem? s.chutes i)) [
    | inl out ↦ absurd (ground (arith, e, out))
    | inr at ↦ at
  ]

  filled-IsMarked :
      (c : Chute T) (values : List T)
      → values ≢ []
      → IsMarked (record { queue = c.queue ++ values; clean = false })
  filled-IsMarked c [] ne = absurd (ne refl)
  filled-IsMarked c (v ∷ rest) ne = ground (arith, length-append c.queue (v ∷ rest))

  module _ (n : ℕ) (p : Place) (r : Receiver T) (scheduled : Bool) (h : Holds n p r scheduled)
      (some_sender : 0 < r.shared.senders) where
    -- The chute `i` has other contents, and is marked as it should be.
    changed-IsValid :
        (i : ℕ) (c : Chute T) (s : Shared T)
        → IsMarked c
        → s.chutes ≡ set r.shared.chutes i c
        → s.capacity ≡ r.shared.capacity
        → IsValid (with_shared r s)
    changed-IsValid i c s m e f = record {
      in_range = omega (arith, ap length e, length-set r.shared.chutes i c, h.valid.in_range);
      marked = subst AllMarked (sym e) (AllMarked-set r.shared.chutes i c m h.valid.marked);
      small = omega (arith, f, h.valid.small);
      counted = λ k. absurd (k (f ∙ h.unbounded));
      bounded = λ k. absurd (k (f ∙ h.unbounded));
    }

    abbrev Comes : Shared T → Type ℓ
    Comes s = Holds n p (with_shared r s) (after scheduled r.shared.waker s.waker)

    pub batch-Holds :
        (i : ℕ) (c : Chute T) (values : List T) (s' : Shared T)
        → values ≢ []
        → get_elem? r.shared.chutes i ≡ some c
        → send_many_infallible r.shared i values ≡ some s'
        → Comes s'
    unfolding notify
    batch-Holds i c values s' ne at e = elim (Bool-cases (length c.queue == 0)) [
      | inl first ↦ subst Comes (ground (arith, first_in r i c values at first, e)) (record {
        reach = ground (arith, first_in_Reach r i c values at h.reach some_sender first);
        valid =
            changed-IsValid i (dirty_chute r i c values at)
              (notify (with_chute r.shared i (dirty_chute r i c values at)))
              (filled-IsMarked c values ne) refl refl;
        unbounded = h.unbounded;
        alive = h.alive;
        word = h.word;
      })
      | inr later ↦ subst Comes (ground (arith, behind r i c values at later, e)) (record {
        reach = ground (arith, behind_Reach r i c values at h.reach some_sender later);
        valid =
            changed-IsValid i (full_chute r i c values at)
              (with_chute r.shared i (full_chute r i c values at))
              (ground (
                arith,
                length-append c.queue values,
                later,
                AllMarked-get_elem? r.shared.chutes i at h.valid.marked,
              ))
              refl refl;
        unbounded = h.unbounded;
        alive = h.alive;
        word = h.word;
      })
    ]

    -- Only the count of the senders, the clock and the waker change.
    counted-IsValid :
        (s : Shared T)
        → s.chutes ≡ r.shared.chutes
        → s.capacity ≡ r.shared.capacity
        → IsValid (with_shared r s)
    counted-IsValid s e f = record {
      in_range = omega (arith, ap length e, h.valid.in_range);
      marked = subst AllMarked (sym e) h.valid.marked;
      small = omega (arith, f, h.valid.small);
      counted = λ k. absurd (k (f ∙ h.unbounded));
      bounded = λ k. absurd (k (f ∙ h.unbounded));
    }

    counted-Holds :
        r.shared.senders + 1 < 2 ^ 64 → Holds n p (with_shared r (counted r.shared)) scheduled
    counted-Holds small =
        let more : add64 r.shared.senders 1 ≡ r.shared.senders + 1 = omega arith in
        record {
          reach =
              subst (λ m. Reach n p (record (whole r scheduled) { senders = m })) (sym more)
                (sent h.reach (clone_step some_sender small));
          valid = counted-IsValid (counted r.shared) refl refl;
          unbounded = h.unbounded;
          alive = h.alive;
          word = omega (arith, more);
        }

    pub cloned-Holds :
        r.shared.senders + 1 < 2 ^ 64
        → (me clone : Sender) (s' : Shared T) → Sender.clone me r.shared ≡ some (clone, s')
        → Holds n p (with_shared r s') scheduled
    cloned-Holds small me clone s' e =
        subst (λ (o : Sender × Shared T). Holds n p (with_shared r o.1) scheduled)
          (some_inj.0 (sym (clone-some me r.shared (omega (arith, h.valid.in_range))) ∙ e))
          (counted-Holds small)

    settle :
        (s s' : Shared T) (b : Bool)
        → s ≡ s'
        → after scheduled r.shared.waker s.waker ≡ b
        → Holds n p (with_shared r s) b
        → Comes s'
    settle s s' b e f now = subst Comes e (subst (Holds n p (with_shared r s)) (sym f) now)

    dropped_one :
        (m : ℕ) (me : Sender)
        → r.shared.senders ≡ suc (suc m)
        → Comes (Sender.drop_last me r.shared)
    unfolding Sender.drop_last Shared.drop_sender notify
    dropped_one m me e =
        let fewer : sub64 r.shared.senders 1 ≡ suc m = omega (arith, h.word) in
        let s : Shared T = record (r.shared) { senders = sub64 r.shared.senders 1 } in
        settle s (Sender.drop_last me r.shared) scheduled (ground (arith, e))
          (after_none scheduled r.shared.waker)
          (record {
            reach =
                subst (λ k. Reach n p (record (whole r scheduled) { senders = k })) (sym fewer)
                  (sent h.reach (drop_step m e));
            valid = counted-IsValid s refl refl;
            unbounded = h.unbounded;
            alive = h.alive;
            word = omega (arith, fewer, e, h.word);
          })

    dropped_last : (me : Sender) → r.shared.senders ≡ 1 → Comes (Sender.drop_last me r.shared)
    unfolding Sender.drop_last Shared.drop_sender notify Race.wake
    dropped_last me e =
        let none_left : sub64 r.shared.senders 1 ≡ 0 = omega (arith, e) in
        let s : Shared T = notify (record (r.shared) { senders = sub64 r.shared.senders 1 }) in
        settle s (Sender.drop_last me r.shared) (scheduled || is_registered r.shared.waker)
          (ground (arith, e)) (after-wake scheduled r.shared.waker)
          (record {
            reach =
                subst
                  (λ k. Reach n p (record (whole r (scheduled || is_registered r.shared.waker)) {
                    senders = k;
                    registered = false;
                  }))
                  (sym none_left)
                  (sent (sent h.reach (drop_last_step e (free_cells-AllFree r.shared.chutes)))
                    (wake_last_step refl));
            valid = counted-IsValid s refl refl;
            unbounded = h.unbounded;
            alive = h.alive;
            word = omega (arith, none_left);
          })

    pub dropped-Holds : (me : Sender) → Comes (Sender.drop_last me r.shared)
    dropped-Holds me = elim (Bool-cases (r.shared.senders == 1)) [
      | inl last ↦ dropped_last me (ground (arith, last))
      | inr more ↦ dropped_one (r.shared.senders - 2) me (ground (arith, more))
    ]
