-- ===== src/Tests/Race.antt =====
-- The receiver and the senders of a channel, step by step.
use protosocket.Prelude.{
  ℕ, ◌<◌, ◌≡◌, ◌≢◌, ◌⊎◌, refl, true, false, [], ◌∷◌, get_elem?, none, some, arith,
}
use protosocket.Spillway.Chute
use protosocket.Spillway.Race.{
  free, Cell, Race, counting, parked, ended, first, registering, second, wake, initial, receive,
  Reach, start, received,
}
use protosocket.Spillway.Race.Wakes.{parked-IsDue}
use protosocket.Spillway.Race.Ending.{ended-leaves_value}

-- A channel of one chute, before and after the receiver has registered.
abbrev quiet : Race ℕ
quiet = record {
  cells = record { chute = record { queue = []; clean = true }; holder = free } ∷ [];
  senders = 1;
  leaving = false;
  registered = true;
  scheduled = false;
  cursor = 0;
  buffer = [];
}

abbrev unregistered : Race ℕ
unregistered = record quiet { registered = false }

quiet_parks : Reach 1 parked quiet
unfolding receive initial Chute.default
quiet_parks =
    let r1 : Reach 1 (first 0) unregistered = received start refl in
    let r2 : Reach 1 (first 1) unregistered = received r1 refl in
    let r3 : Reach 1 registering unregistered = received r2 refl in
    let r4 : Reach 1 (second 0) quiet = received r3 refl in
    let r5 : Reach 1 (second 1) quiet = received r4 refl in
    let r6 : Reach 1 counting quiet = received r5 refl in received r6 refl

parked-IsDue_example :
    ((i : ℕ) (c : Cell ℕ)
      → get_elem? quiet.cells i ≡ some c
      → (c.chute.queue ≡ []) ⊎ (c.holder ≢ free))
    × ((0 < quiet.senders) ⊎ (quiet.leaving ≡ true))
    × ((wake quiet).scheduled ≡ true)
parked-IsDue_example = parked-IsDue 1 (omega arith) quiet_parks refl

ended-leaves_value_example :
    (s : Race ℕ) × Reach 2 ended s
    × (s.senders ≡ 0)
    × ((c : Cell ℕ) × (get_elem? s.cells 0 ≡ some c) × (c.chute.queue ≡ 7 ∷ []))
    × (receive ended s ≡ none)
ended-leaves_value_example = ended-leaves_value ℕ 2 (omega arith) 7
