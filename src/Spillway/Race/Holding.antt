-- ===== src/Spillway/Race/Holding.antt =====
-- What holds between the whole operations of a channel: when it is new, and after a poll
-- (spillway/src/lib.rs, spillway/src/receiver.rs).
use protosocket.Prelude.{
  Poll, ℕ, zero, suc, ◌^◌, ◌<◌, ◌≡◌, ◌⊎◌, refl, sym, ap, subst, ◌∙◌, Bool, true, false, ◌||◌,
  if◌then◌else◌, ◌==◌, List, [], ◌∷◌, length, replicate, Option, some, arith,
}
use mathlib.Core.Option.{some_inj}
use protosocket.Prelude.Word.{u64_max}
use protosocket.Spillway.Chute
use protosocket.Spillway.Chute.{Chute, IsMarked}
use protosocket.Spillway.Shared.{WakerCall, wake}
use protosocket.Spillway.Sender.{Sender}
use protosocket.Spillway.Receiver
use protosocket.Spillway.Receiver.{
  Receiver, channel_with_concurrency, channel_with_capacity_and_concurrency, poll_next,
}
use protosocket.Spillway.Receiver.Fresh.{
  channel_with_capacity_and_concurrency-IsValid, channel_with_capacity_and_concurrency-some,
}
use protosocket.Spillway.Receiver.Validity.{IsValid, poll_next-Answers}
use protosocket.Spillway.Race.{
  Race, Place, resting, parked, initial, AllFree, Reach, start, received,
}
use protosocket.Spillway.Race.Whole.{is_registered, whole, free_cell, free_cells}
use protosocket.Spillway.Race.Alone.{place, poll_next-Follows}
use protosocket.Spillway.Race.Runs.{Runs, stop, step}

-- Whether the task is scheduled after an operation that may have woken it.
abbrev pub after : Bool → List WakerCall → List WakerCall → Bool
after scheduled old new =
    if length new == length old then scheduled else scheduled || is_registered old

pub after_none : (b : Bool) (calls : List WakerCall) → after b calls calls ≡ b
after_none b calls = ground arith

pub after-wake :
    (b : Bool) (calls : List WakerCall) → after b calls (wake ∷ calls) ≡ (b || is_registered calls)
after-wake b calls = ground arith

module _ {ℓ} {T : Type ℓ} where
  -- What holds between whole operations.
  pub record Holds (n : ℕ) (p : Place) (r : Receiver T) (scheduled : Bool) : Type ℓ where
    pub reach : Reach n p (whole r scheduled)
    pub valid : IsValid r
    pub unbounded : r.shared.capacity ≡ u64_max
    pub alive : r.shared.dead ≡ false
    pub word : r.shared.senders < 2 ^ 64

  free_cells-replicate :
      (n : ℕ) (c : Chute T) → free_cells (replicate n c) ≡ replicate n (free_cell c)
  free_cells-replicate zero c = refl
  free_cells-replicate (suc n) c = ap (λ l. free_cell c ∷ l) (free_cells-replicate n c)

  pub free_cells-AllFree : (cs : List (Chute T)) → AllFree (free_cells cs)
  free_cells-AllFree [] = tt
  free_cells-AllFree (c ∷ cs) = (refl, free_cells-AllFree cs)

  Runs-Reach : {n : ℕ} {p q : Place} {s t : Race T} → Reach n p s → Runs p s q t → Reach n q t
  Runs-Reach h stop = h
  Runs-Reach h (step e more) = Runs-Reach (received h e) more

  pub made-Holds :
      (n : ℕ)
      → 0 < n
      → (me : Sender) (r : Receiver T) → channel_with_concurrency n ≡ some (me, r)
      → Holds n resting r true
  unfolding channel_with_concurrency Receiver.new initial
  made-Holds n some_chute me r e =
      let made = channel_with_capacity_and_concurrency-some T u64_max n some_chute in
      subst (λ (o : Sender × Receiver T). Holds n resting o.1 true) (some_inj.0 (sym made ∙ e))
        (record {
          reach =
              subst (λ cs. Reach n resting (record (initial n) { cells = cs }))
                (sym (free_cells-replicate n Chute.default)) start;
          valid =
              (channel_with_capacity_and_concurrency-IsValid T u64_max n some_chute (omega arith) _
                _ made).0;
          unbounded = refl;
          alive = refl;
          word = omega arith;
        })

  pub polled-Holds :
      (n : ℕ) (p : Place) (r : Receiver T) (scheduled : Bool)
      → Holds n p r scheduled
      → (p ≡ resting) ⊎ (p ≡ parked)
      → (a : Poll (Option T)) (r' : Receiver T) → poll_next r ≡ some (a, r')
      → Holds n (place a) r' false
  polled-Holds n p r scheduled h rests a r' e =
      let (a1, r1, e1, runs, (capacity, senders, dead)) =
        poll_next-Follows p r scheduled rests h.unbounded h.valid in
      let (a2, r2, e2, valid, _) = poll_next-Answers r h.valid in
      let valid' : IsValid r1 = subst IsValid (ground (arith, e1, e2)) valid in
      let now : Holds n (place a1) r1 false = record {
        reach = Runs-Reach h.reach runs;
        valid = valid';
        unbounded = capacity ∙ h.unbounded;
        alive = dead ∙ h.alive;
        word = omega (arith, senders, h.word);
      } in
      subst (λ (o : Poll (Option T) × Receiver T). Holds n (place o.0) o.1 false)
        (ground (arith, e1, e)) now
