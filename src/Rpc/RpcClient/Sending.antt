-- ===== src/Rpc/RpcClient/Sending.antt =====
-- What a call of an rpc client puts into the queue (protosocket-rpc/src/client/rpc_client.rs).
use protosocket.Prelude.{
  ◌+◌, ◌^◌, ◌<◌, ◌≡◌, ◌⊎◌, inl, inr, refl, true, false, Bool-cases, [], ◌∷◌, length, none, some,
  arith,
}
use protosocket.Spillway.Shared
use protosocket.Spillway.Shared.{Shared}
use protosocket.Spillway.Sender
use protosocket.Spillway.Receiver.{Receiver}
use protosocket.Spillway.Receiver.Cloned.{counted, next_sender, clone-some}
use protosocket.Spillway.Receiver.Validity.{IsValid, stored}
use protosocket.Spillway.Sending.{Delivers, HasRoom, send-Sends}
use protosocket.Rpc.Message.{Message}
use protosocket.Rpc.Alive.{Flags, load}
use protosocket.Rpc.CompletionReactor.{Completion, RpcNotification, new_rpc}
use protosocket.Rpc.Completions.{
  ok, err, connection_is_closed, CompletionGuard, RpcClient, send_message, new_guard,
}

module _ {O : Type 0} (outbound : Message O) where
  -- The receiver of the queue when the guard has its clone of the client's sender.
  abbrev pub guarded : Receiver (RpcNotification O) → Receiver (RpcNotification O)
  guarded r = record r { shared = counted r.shared }

  abbrev pub notification : Completion → O → RpcNotification O
  notification completion request = new_rpc (record {
    message_id = outbound.message_id request;
    completion = completion;
    request = request;
  })

  guarded-IsValid : (r : Receiver (RpcNotification O)) → IsValid r → IsValid (guarded r)
  guarded-IsValid r h = record {
    in_range = h.in_range;
    marked = h.marked;
    small = h.small;
    counted = h.counted;
    bounded = h.bounded;
  }

  pub sent_on :
      (flags : Flags) (c : RpcClient) (r : Receiver (RpcNotification O)) (completion : Completion)
      (request : O) (s' : Shared (RpcNotification O))
      → load flags c.is_alive ≡ true
      → 0 < length r.shared.chutes
      → Shared.send (guarded r).shared c.submission_queue.chute (notification completion request)
        ≡ some (none, s')
      → send_message outbound flags c r.shared completion request
        ≡ some (ok (new_guard (outbound.message_id request) (next_sender r.shared)), s')
  unfolding send_message
  sent_on flags c r completion request s' e some_chute sends =
      ground (arith, e, sends, clone-some c.submission_queue r.shared some_chute)

  -- A client whose connection is gone refuses a request, and leaves the queue as it is. Any other client
  -- puts the request with its completion behind what its own chute holds, in a valid channel that
  -- is open and has room, and gives a guard for the request's id that is not closed and holds a clone
  -- of the client's sender.
  pub send_message-Delivers :
      (flags : Flags) (c : RpcClient) (r : Receiver (RpcNotification O)) (completion : Completion)
      (request : O)
      → IsValid r
      → r.shared.dead ≡ false
      → c.submission_queue.chute < length r.shared.chutes
      → stored r + 1 < 2 ^ 64
      → HasRoom r 1
      → ((load flags c.is_alive ≡ false)
          × (send_message outbound flags c r.shared completion request
              ≡ some (err connection_is_closed, r.shared)))
        ⊎ ((load flags c.is_alive ≡ true)
            × (g : CompletionGuard) × (s0 s' : Shared (RpcNotification O)) × (send_message outbound
                  flags c r.shared completion request
                ≡ some (ok g, s'))
            × (g.closed ≡ false)
            × (g.message_id ≡ outbound.message_id request)
            × (Sender.clone c.submission_queue r.shared ≡ some (g.raw_submission_queue, s0))
            × Delivers
                (record r { shared = s0 })
                c.submission_queue.chute
                (notification completion request ∷ [])
                s')
  unfolding send_message
  send_message-Delivers flags c r completion request h open_ inside small room =
      elim (Bool-cases (load flags c.is_alive)) [
        | inr e ↦ inl (e, rw e refl)
        | inl e ↦
            let n = notification completion request in
            let sent =
              send-Sends (guarded r) c.submission_queue.chute n open_ inside small
                (guarded-IsValid r h) in
            elim sent [
              | inl (_, s', sends, delivers) ↦ inr (
                e,
                new_guard (outbound.message_id request) (next_sender r.shared),
                counted r.shared,
                s',
                sent_on flags c r completion request s' e (omega (arith, inside)) sends,
                refl,
                refl,
                clone-some c.submission_queue r.shared (omega (arith, inside)),
                delivers,
              )
              | inr (bounded, over, _) ↦ elim room [
                | inl unbounded ↦ absurd (bounded unbounded)
                | inr fits ↦ absurd (omega (arith, over, fits))
              ]
            ]
      ]
