-- ===== src/Spillway/Race/Ending.antt =====
-- The end of a channel (spillway/src/receiver.rs, poll_next) when a sender is still at work.
use protosocket.Prelude.{
  ℕ, zero, suc, ◌+◌, ◌%◌, ◌≤◌, ◌<◌, ◌≡◌, refl, sym, ap, subst, Bool, true, false, ltb, lt→ltb, List,
  [], ◌∷◌, length, get_elem?, set, replicate, none, some, arith, length-replicate,
  get_elem?-replicate, get_elem?-set_self, length-set,
}
use native.Mathlib.Nat.{mod-lt}
use protosocket.Spillway.Chute
use protosocket.Spillway.Race.{
  free, Cell, Race, Place, registering, counting, ended, first, second, initial, wake, extend, mark,
  release, is_dirty, look, begin, receive, AllFree, extend_step, mark_step, wake_step,
  drop_last_step, Reach, start, sent, received,
}

module _ {ℓ} {T : Type ℓ} where
  -- The first cell, written once more.
  replicate-AllFree : (m : ℕ) (c : Cell T) → c.holder ≡ free → AllFree (replicate m c)
  replicate-AllFree zero c h = tt
  replicate-AllFree (suc m) c h = (h, replicate-AllFree m c h)

  filled-AllFree :
      (n : ℕ) (c c1 c2 c3 : Cell T)
      → c.holder ≡ free
      → c3.holder ≡ free
      → AllFree (set (set (set (replicate n c) 0 c1) 0 c2) 0 c3)
  filled-AllFree zero c c1 c2 c3 h k = tt
  filled-AllFree (suc n) c c1 c2 c3 h k = (k, replicate-AllFree n c h)

  at_first : (cs : List (Cell T)) (c : Cell T) → 0 < length cs → get_elem? (set cs 0 c) 0 ≡ some c
  at_first cs c h = get_elem?-set_self cs 0 c h

  still_some : (cs : List (Cell T)) (c : Cell T) → 0 < length cs → 0 < length (set cs 0 c)
  still_some cs c h = subst (λ m. 0 < m) (sym (length-set cs 0 c)) h

module _ {ℓ} (T : Type ℓ) (n : ℕ) (some_chute : 0 < n) where
  abbrev clean_cell : Cell T
  clean_cell = record { chute = record { queue = []; clean = true }; holder = free }

  abbrev looking : Bool → Race T
  looking registered = record {
    cells = replicate n clean_cell;
    senders = 1;
    leaving = false;
    registered = registered;
    scheduled = false;
    cursor = 0;
    buffer = [];
  }

  clean_round :
      (i : ℕ)
      → is_dirty (get_elem? (replicate n clean_cell) ((0 + i) % length (replicate n clean_cell)))
        ≡ false
  clean_round i =
      let e = length-replicate n clean_cell in
      subst (λ o. is_dirty o ≡ false)
        (sym (
          get_elem?-replicate n ((0 + i) % length (replicate n clean_cell)) clean_cell
            (subst (λ m. (0 + i) % m < n) (sym e) (mod-lt (0 + i) some_chute))))
        refl

  many : length (replicate n clean_cell) ≡ n
  many = length-replicate n clean_cell

  look_on :
      (registered : Bool) (i : ℕ) (again : ℕ → Place) (over : Place)
      → i < n
      → look (looking registered) i again over ≡ again (suc i)
  unfolding look
  look_on registered i again over h =
      let e : ltb i (length (replicate n clean_cell)) ≡ true =
        lt→ltb i (length (replicate n clean_cell)) (subst (λ m. i < m) (sym many) h) in
      rw (e, clean_round i) refl

  look_over :
      (registered : Bool) (again : ℕ → Place) (over : Place)
      → look (looking registered) n again over ≡ over
  unfolding look
  look_over registered again over =
      let e : ltb n (length (replicate n clean_cell)) ≡ false = ground (arith, many) in rw e refl

  first_look : (i : ℕ) → i ≤ n → Reach n (first i) (looking false)
  unfolding receive begin initial Chute.default
  first_look zero h = received start refl
  first_look (suc i) h =
      received (first_look i (omega arith))
        (ap (λ p. some (p, looking false)) (look_on false i first registering h))

  second_look : (i : ℕ) → i ≤ n → Reach n (second i) (looking true)
  unfolding receive
  second_look zero h =
      let over : Reach n registering (looking false) =
        received (first_look n (omega arith))
          (ap (λ p. some (p, looking false)) (look_over false first registering)) in
      received over refl
  second_look (suc i) h =
      received (second_look i (omega arith))
        (ap (λ p. some (p, looking true)) (look_on true i second counting h))

  counted : Reach n counting (looking true)
  unfolding receive
  counted =
      received (second_look n (omega arith))
        (ap (λ p. some (p, looking true)) (look_over true second counting))

  -- A value that is sent between the second look of a poll and its load of the count of the senders,
  -- by a sender that is then dropped as the last one, is still in its chute when the poll says that
  -- the channel has ended; and this goes for each value, and any number of chutes but none.
  pub ended-leaves_value :
      (v : T)
      → (s : Race T) × Reach n ended s
        × (s.senders ≡ 0)
        × ((c : Cell T) × (get_elem? s.cells 0 ≡ some c) × (c.chute.queue ≡ v ∷ []))
        × (receive ended s ≡ none)
  unfolding receive extend mark release wake
  ended-leaves_value v =
      let cells : List (Cell T) = replicate n clean_cell in
      let lt : 0 < length cells = subst (λ m. 0 < m) (sym many) some_chute in
      let c1 : Cell T = extend clean_cell (v ∷ []) in
      let c2 : Cell T = mark c1 in
      let c3 : Cell T = release c2 in
      let lt1 = still_some cells c1 lt in
      let lt2 = still_some (set cells 0 c1) c2 lt1 in
      let s1 : Reach n counting (record (looking true) { cells = set cells 0 c1 }) = sent counted (
        extend_step 0 clean_cell (v ∷ []) (omega arith)
          (get_elem?-replicate n 0 clean_cell some_chute) refl) in
      let s2 : Reach n counting (record (looking true) { cells = set (set cells 0 c1) 0 c2 }) =
        sent s1 (mark_step 0 c1 (at_first cells c1 lt) refl) in
      let s3 = sent s2 (wake_step 0 c2 (at_first (set cells 0 c1) c2 lt1) refl) in
      let s4 = sent s3 (drop_last_step refl (filled-AllFree n clean_cell c1 c2 c3 refl refl)) in
      (_, received s4 refl, refl, (c3, at_first (set (set cells 0 c1) 0 c2) c3 lt2, refl), refl)
