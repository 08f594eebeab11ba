-- ===== src/Rpc/ConnectionPool.antt =====
-- protosocket-rpc/src/client/connection_pool.rs: the pool of shared client connections.
pub mod Slots
pub mod Claims
use protosocket.Prelude.{
  Run, done, panic, starved, ◌>>=◌, ℕ, zero, suc, ◌+◌, ◌%◌, Bool, if◌then◌else◌, ◌==◌, List, length,
  get_elem?, set, replicate, Option, none, some,
}

-- `ConnectionState`. A connection attempt that was spawned is known by its number.
pub data ConnectionState (C : Type 0) : Type 0 where
  connecting : ℕ → ConnectionState C
  connected : C → ConnectionState C
  disconnected : ConnectionState C

-- `ConnectionPool`, with the number of attempts that were spawned so far.
pub record ConnectionPool (C : Type 0) : Type 0 where
  pub connections : List (ConnectionState C)
  pub spawned : ℕ

-- What the lock on a slot gives: a client, or the attempt to wait for.
pub data Claim (C : Type 0) : Type 0 where
  client : C → Claim C
  attempt : ℕ → Claim C

module _ {C : Type 0} where
  unfoldable pub new : ℕ → ConnectionPool C
  new connection_count = record {
    connections = replicate connection_count disconnected;
    spawned = 0;
  }

  abbrev pub put : ConnectionPool C → ℕ → ConnectionState C → ConnectionPool C
  put p slot state = record p { connections = set p.connections slot state }

  -- The slot of a key. `none` is a panic: there is no slot.
  unfoldable pub slot_for_key : ConnectionPool C → ℕ → Option ℕ
  slot_for_key p key = if length p.connections == 0 then none else some (key % length p.connections)

module _ {C : Type 0} (is_alive : C → Bool) where
  -- One round of the loop of `get_connection_by_slot`. It takes the lock of the slot, and releases it at
  -- its end, also when the loop goes round again (`none`).
  unfoldable pub claim_round :
      ConnectionPool C → ℕ → ConnectionState C → Option (Claim C) × ConnectionPool C
  claim_round p slot (connected shared_connection) =
      if is_alive shared_connection
      then (some (client shared_connection), p)
      else (none, put p slot disconnected)
  claim_round p slot (connecting join_handle) = (some (attempt join_handle), p)
  claim_round p slot disconnected =
      (none, record (put p slot (connecting p.spawned)) { spawned = p.spawned + 1 })

  unfoldable pub reconcile_state : ConnectionState C → C → C × ConnectionState C
  reconcile_state (connecting shared) c = (c, connected c)
  reconcile_state (connected rpc_client) c =
      if is_alive rpc_client then (rpc_client, connected rpc_client) else (c, connected c)
  reconcile_state disconnected c = (c, connected c)

  unfoldable pub reconcile_client_slot : ConnectionPool C → ℕ → C → Run (C × ConnectionPool C)
  unfolding reconcile_state
  reconcile_client_slot p slot c = elim (get_elem? p.connections slot) [
    | none ↦ panic
    | some state ↦ let (c', state') = reconcile_state state c in done (c', put p slot state')
  ]

  -- The part after the await: the attempt gave a client, or an error that is passed on as `none`.
  unfoldable pub finish : ConnectionPool C → ℕ → Option C → Run (Option C × ConnectionPool C)
  unfolding reconcile_client_slot
  finish p slot (some c) = reconcile_client_slot p slot c >>= λ o. done (some (o.0), o.1)
  finish p slot none = done (none, put p slot disconnected)

-- The loop. `is_alive k` says which clients are alive in the round `k`, and `others k` is what other
-- tasks do to the pool after it, when the lock is free. A slot that does not exist is a panic.
module _ {C : Type 0} (is_alive : ℕ → C → Bool)
    (others : ℕ → ConnectionPool C → ConnectionPool C) where
  unfoldable pub claim_loop : ℕ → ℕ → ConnectionPool C → ℕ → Run (Claim C × ConnectionPool C)
  unfolding claim_round
  claim_loop zero k p slot = starved
  claim_loop (suc rounds) k p slot = elim (get_elem? p.connections slot) [
    | none ↦ panic
    | some state ↦
        let (claim, p') = claim_round (is_alive k) p slot state in
        let again = claim_loop rounds (suc k) (others k p') slot in
        elim claim [ some c ↦ done (c, p') | none ↦ again ]
  ]

  -- The part of `get_connection_by_slot` before the await, with fuel.
  unfoldable pub claim : ℕ → ConnectionPool C → ℕ → Run (Claim C × ConnectionPool C)
  unfolding claim_loop
  claim rounds p slot = claim_loop rounds 0 p slot
