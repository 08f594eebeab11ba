-- ===== src/Rpc/ConnectionPool/Claims.antt =====
-- How a claim of a slot ends while other tasks use the pool
-- (protosocket-rpc/src/client/connection_pool.rs, get_connection_by_slot).
use protosocket.Prelude.{
  Run, done, ℕ, zero, suc, ◌+◌, ◌≤◌, ◌<◌, ◌≡◌, inl, inr, ◌∙◌, Bool, true, false, if◌then◌else◌,
  Bool-cases, get_elem?, some, arith, get_elem?-lt, get_elem?-set_self,
}
use protosocket.Rpc.ConnectionPool.{
  ConnectionState, connecting, connected, disconnected, ConnectionPool, Claim, client, attempt, put,
  claim_round, claim_loop, claim,
}

module _ {C : Type 0} where
  -- The pool with a new attempt in the slot.
  abbrev pub spawning : ConnectionPool C → ℕ → ConnectionPool C
  spawning p slot = record (put p slot (connecting p.spawned)) { spawned = p.spawned + 1 }

  -- How many more rounds a slot needs in this state before it can be claimed.
  abbrev pub to_go : (C → Bool) → ConnectionState C → ℕ
  to_go is_alive (connected c) = if is_alive c then 0 else 2
  to_go is_alive (connecting n) = 0
  to_go is_alive disconnected = 1

  -- The slot is there, and `n` rounds do.
  abbrev pub Within : (C → Bool) → ConnectionPool C → ℕ → ℕ → Type 0
  Within is_alive p slot n =
      (state : ConnectionState C) × (get_elem? p.connections slot ≡ some state)
      × (to_go is_alive state ≤ n)

module _ {C : Type 0} (is_alive : ℕ → C → Bool) (others : ℕ → ConnectionPool C → ConnectionPool C)
    (slot : ℕ) where
  -- What a claim went through, from the pool `p` in the round `k`: rounds that left the slot
  -- disconnected in place of a client that is gone, or with a new attempt in place of nothing, each of
  -- them followed by what others did.
  pub data Trail : ℕ → ConnectionPool C → ℕ → ConnectionPool C → Type 0 where
    here : {k : ℕ} {p : ConnectionPool C} → Trail k p k p
    lost :
        {k k' : ℕ} {p p' : ConnectionPool C} {c : C}
        → get_elem? p.connections slot ≡ some (connected c)
        → is_alive k c ≡ false
        → Trail (suc k) (others k (put p slot disconnected)) k' p'
        → Trail k p k' p'
    spawned :
        {k k' : ℕ} {p p' : ConnectionPool C}
        → get_elem? p.connections slot ≡ some disconnected
        → Trail (suc k) (others k (spawning p slot)) k' p'
        → Trail k p k' p'

  -- What is claimed is what the slot holds in the last round: a client that is alive, or an attempt.
  abbrev pub Holds : ℕ → ConnectionPool C → Claim C → Type 0
  Holds k p (client c) = (get_elem? p.connections slot ≡ some (connected c)) × (is_alive k c ≡ true)
  Holds k p (attempt n) = get_elem? p.connections slot ≡ some (connecting n)

  abbrev pub Claimed : ℕ → ConnectionPool C → Run (Claim C × ConnectionPool C) → Type 0
  Claimed k p o =
      (c : Claim C) × (k' : ℕ) × (p' : ConnectionPool C) × (o ≡ done (c, p'))
      × Trail k p k' p'
      × Holds k' p' c

  -- Other tasks do not take the slot further from a claim than they find it.
  abbrev pub Settles : Type 0
  Settles =
      (k n : ℕ) (p : ConnectionPool C)
      → Within (is_alive k) p slot n
      → Within (is_alive (suc k)) (others k p) slot n

  module _ (rounds k : ℕ) (p : ConnectionPool C) where
    claim_attempt :
        (n : ℕ)
        → get_elem? p.connections slot ≡ some (connecting n)
        → claim_loop is_alive others (suc rounds) k p slot ≡ done (attempt n, p)
    unfolding claim_loop claim_round
    claim_attempt n e = ground (arith, e)

    claim_alive :
        (c : C)
        → get_elem? p.connections slot ≡ some (connected c)
        → is_alive k c ≡ true
        → claim_loop is_alive others (suc rounds) k p slot ≡ done (client c, p)
    unfolding claim_loop claim_round
    claim_alive c e alive = ground (arith, e, alive)

    claim_lost :
        (c : C)
        → get_elem? p.connections slot ≡ some (connected c)
        → is_alive k c ≡ false
        → claim_loop is_alive others (suc rounds) k p slot
          ≡ claim_loop is_alive others rounds (suc k) (others k (put p slot disconnected)) slot
    unfolding claim_loop claim_round
    claim_lost c e dead = ground (arith, e, dead)

    claim_spawned :
        get_elem? p.connections slot ≡ some disconnected
        → claim_loop is_alive others (suc rounds) k p slot
          ≡ claim_loop is_alive others rounds (suc k) (others k (spawning p slot)) slot
    unfolding claim_loop claim_round
    claim_spawned e = ground (arith, e)

  written :
      (p : ConnectionPool C) (state state' : ConnectionState C)
      → get_elem? p.connections slot ≡ some state
      → get_elem? (put p slot state').connections slot ≡ some state'
  written p state state' e =
      get_elem?-set_self p.connections slot state' (get_elem?-lt p.connections slot e)

  claim_loop-Claimed :
      (rounds k : ℕ) (p : ConnectionPool C) (state : ConnectionState C)
      → Settles
      → get_elem? p.connections slot ≡ some state
      → to_go (is_alive k) state < rounds
      → Claimed k p (claim_loop is_alive others rounds k p slot)
  claim_loop-Claimed zero k p state settles e lt = absurd (omega arith)
  claim_loop-Claimed (suc rounds) k p (connecting n) settles e lt =
      (attempt n, k, p, claim_attempt rounds k p n e, here, e)
  claim_loop-Claimed (suc rounds) k p disconnected settles e lt =
      let next = spawning p slot in
      let (state, at, le) =
        settles k 0 next
          (connecting p.spawned, written p disconnected (connecting p.spawned) e, omega arith) in
      let (c, k', p', run, trail, held) =
        claim_loop-Claimed rounds (suc k) (others k next) state settles at
          (omega (arith, le, lt)) in
      (c, k', p', claim_spawned rounds k p e ∙ run, spawned e trail, held)
  claim_loop-Claimed (suc rounds) k p (connected c) settles e lt =
      elim (Bool-cases (is_alive k c)) [
        | inl alive ↦ (client c, k, p, claim_alive rounds k p c e alive, here, (e, alive))
        | inr dead ↦
            let next = put p slot disconnected in
            let (state, at, le) =
              settles k 1 next
                (disconnected, written p (connected c) disconnected e, omega arith) in
            let (c', k', p', run, trail, held) =
              claim_loop-Claimed rounds (suc k) (others k next) state settles at
                (ground (arith, le, lt, dead)) in
            (c', k', p', claim_lost rounds k p c e dead ∙ run, lost e dead trail, held)
      ]

  -- A claim of a slot that exists ends within three rounds, if what other tasks do between them, when the
  -- lock is free, does not take the slot further from a claim. It gives what the slot holds in its
  -- last round, a client that is alive or an attempt, and its rounds before, if any, each put
  -- nothing in place of a client that is gone, or a new attempt in place of nothing.
  pub claim-Claimed :
      (rounds : ℕ) (p : ConnectionPool C) (state : ConnectionState C)
      → Settles
      → get_elem? p.connections slot ≡ some state
      → 2 < rounds
      → Claimed 0 p (claim is_alive others rounds p slot)
  unfolding claim
  claim-Claimed rounds p state settles e enough =
      claim_loop-Claimed rounds 0 p state settles e (three state)
    where
      three : (s : ConnectionState C) → to_go (is_alive 0) s < rounds
      three (connected c) = ground (arith, enough)
      three (connecting n) = omega (arith, enough)
      three disconnected = omega (arith, enough)

-- A round of another task that claims the same slot is such: it does not take the slot further.
module _ {C : Type 0} (is_alive : C → Bool) where
  pub round-Within :
      (p : ConnectionPool C) (slot n : ℕ) (state : ConnectionState C)
      → get_elem? p.connections slot ≡ some state
      → to_go is_alive state ≤ n
      → Within is_alive (claim_round is_alive p slot state).1 slot n
  unfolding claim_round
  round-Within p slot n (connecting m) e le = (connecting m, e, le)
  round-Within p slot n disconnected e le = (
    connecting p.spawned,
    get_elem?-set_self p.connections slot (connecting p.spawned)
        (get_elem?-lt p.connections slot e),
    omega arith,
  )
  round-Within p slot n (connected c) e le = elim (Bool-cases (is_alive c)) [
    | inl alive ↦ rw alive (connected c, e, le)
    | inr dead ↦ rw dead (
      disconnected,
      get_elem?-set_self p.connections slot disconnected (get_elem?-lt p.connections slot e),
      ground (arith, dead, le),
    )
  ]
