-- ===== src/Tests/Client.antt =====
-- The client's reactor and the pool of clients at small inputs.
use protosocket.Prelude.{
  done, ℕ, ◌≡◌, refl, Bool, true, ltb, List, [], ◌∷◌, get_elem?, none, some, arith,
}
use protosocket.Rpc.Message.{Message, ProtosocketControlCode, normal, cancel, end}
use protosocket.Rpc.CompletionReactor.{unary, remote_streaming, RpcCompletionReactor}
use protosocket.Rpc.CompletionReactor.Routing.{IsOwn, received, due, on_all}
use protosocket.Rpc.CompletionReactor.Delivery.{on_all-due}
use protosocket.Rpc.ConnectionPool.{
  connected, disconnected, ConnectionPool, claim, claim_round, reconcile_client_slot,
}
use protosocket.Rpc.ConnectionPool.Slots.{Elsewhere, reconcile-shared}
use protosocket.Rpc.ConnectionPool.Claims.{Claimed, Settles, round-Within, claim-Claimed}

abbrev Note : Type 0
Note = ℕ × ProtosocketControlCode × ℕ

abbrev note_message : Message Note
note_message = record {
  message_id = λ m. m.0;
  control_code = λ m. m.1;
  set_message_id = λ m id. (id, m.1, m.2);
  cancelled = λ id. (id, cancel, 0);
  ended = λ id. (id, end, 0);
}

abbrev everyone : ℕ → Bool
everyone c = true

-- A streaming rpc waits under 4, and a unary one under 5.
abbrev waiting_rpcs : RpcCompletionReactor (Unit {0}) Note
waiting_rpcs = record {
  rpc_registry = (4, remote_streaming 40) ∷ (5, unary 50) ∷ [];
  is_alive = 0;
  unregistered_message_handler = tt;
  effects = [];
}

abbrev replies : List Note
replies = (4, normal, 1) ∷ (5, normal, 2) ∷ (4, normal, 3) ∷ (4, end, 0) ∷ (4, normal, 5) ∷ []

waiting_rpcs-IsOwn : IsOwn waiting_rpcs.rpc_registry 4 40
waiting_rpcs-IsOwn k other ne e = ground (arith, e, ne)

on_all-due_example :
    received 40 (on_all everyone note_message note_message waiting_rpcs replies).effects
    ≡ due everyone note_message 4 (some (remote_streaming 40)) replies
on_all-due_example =
    on_all-due everyone note_message note_message replies waiting_rpcs 4 40
      (some (remote_streaming 40)) refl (λ x e. ground (arith, e)) waiting_rpcs-IsOwn

due_run :
    due everyone note_message 4 (some (remote_streaming 40)) replies
    ≡ (4, normal, 1) ∷ (4, normal, 3) ∷ []
due_run = refl

-- Clients are numbers, and the small ones are alive.
abbrev is_alive : ℕ → Bool
is_alive c = ltb c 10

abbrev slots : ConnectionPool ℕ
slots = record { connections = connected 3 ∷ connected 30 ∷ disconnected ∷ []; spawned = 5 }

-- Another task that claims the same slot takes each of its rounds when the lock is free.
abbrev competitor : ConnectionPool ℕ → ConnectionPool ℕ
competitor p = elim (get_elem? p.connections 1) [
  | none ↦ p
  | some state ↦ (claim_round is_alive p 1 state).1
]

competitor_settles : Settles (λ k. is_alive) (λ k. competitor) 1
competitor_settles k n p (state, e, le) =
    rw (e, competitor) (round-Within is_alive p 1 n state e le)

claim-Claimed_example :
    Claimed
      (λ k. is_alive)
      (λ k. competitor)
      1
      0
      slots
      (claim (λ k. is_alive) (λ k. competitor) 3 slots 1)
claim-Claimed_example =
    claim-Claimed (λ k. is_alive) (λ k. competitor) 1 3 slots (connected 30) competitor_settles refl
      (omega arith)

reconcile-shared_example :
    (p' : ConnectionPool ℕ) × (reconcile_client_slot is_alive slots 1 4 ≡ done (4, p'))
    × (get_elem? p'.connections 1 ≡ some (connected 4))
    × Elsewhere is_alive slots 1 p'
    × (p'' : ConnectionPool ℕ) × (reconcile_client_slot is_alive p' 1 6 ≡ done (4, p''))
    × (get_elem? p''.connections 1 ≡ some (connected 4))
reconcile-shared_example = reconcile-shared is_alive slots 1 (connected 30) 4 6 refl refl
