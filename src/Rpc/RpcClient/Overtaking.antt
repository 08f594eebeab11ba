-- ===== src/Rpc/RpcClient/Overtaking.antt =====
-- A cancellation that overtakes its request (protosocket-rpc/src/client/rpc_client.rs, send_message, and
-- reactor/completion_registry.rs, Drop of CompletionGuard): the guard has a clone of the client's
-- sender, and with it another chute.
use protosocket.Prelude.{
  Poll, ready, pending, ℕ, ◌≡◌, refl, ==_refl, Bool, List, [], ◌∷◌, Option, none, some,
}
use protosocket.Prelude.Assoc.{lookup, remove, lookup-insert_self}
use protosocket.Spillway.Chute
use protosocket.Spillway.Receiver.{Receiver, channel, poll_next}
use protosocket.Rpc.Message.{Message}
use protosocket.Rpc.Alive.{Flags}
use protosocket.Rpc.CompletionReactor.{
  Completion, CompletionRegistry, RpcCompletionReactor, RpcNotification, cancel_rpc,
  on_outbound_message, do_nothing,
}
use protosocket.Rpc.CompletionReactor
use protosocket.Rpc.Completions.{Result, ok, err, send_message, drop_guard}
use protosocket.Rpc.RpcClient as Client
use protosocket.Rpc.RpcClient.Sending.{notification}

infixl 5 ◌>>=◌
abbrev ◌>>=◌ : {A B : Type 0} → Option A → (A → Option B) → Option B
none >>= f = none
some a >>= f = f a

abbrev granted : {A X : Type 0} → Result A × X → Option (A × X)
granted (ok a, x) = some (a, x)
granted (err e, x) = none

abbrev next : {T : Type 0} → Poll (Option T) × Receiver T → Option (T × Receiver T)
next (ready (some v), r) = some (v, r)
next (ready none, r) = none
next (pending, r) = none

module _ {H I O : Type 0} (accepts : ℕ → Bool) (inbound : Message I) (outbound : Message O) where
  -- What the reactor of the connection gets from the queue, and what it puts on the wire.
  abbrev forward :
      RpcCompletionReactor H I
      → Receiver (RpcNotification O)
      → Option (O × RpcCompletionReactor H I × Receiver (RpcNotification O))
  forward m r = do
    polled ← poll_next r
    (n, r') ← next polled
    let (m', o) = on_outbound_message {H = H} {I = I} accepts do_nothing inbound outbound m n
    some (o, m', r')

  -- The reactor of the connection, when it was given a notification.
  abbrev after : RpcCompletionReactor H I → RpcNotification O → RpcCompletionReactor H I
  after m n = (on_outbound_message {H = H} {I = I} accepts do_nothing inbound outbound m n).0

  -- A new client sends the request `a`, and the connection takes it from the queue. Then the client
  -- sends the request `b` and drops its completion at once, and the connection takes what there is.
  abbrev pub hasty :
      Flags → H → Completion → Completion → O → O → Option (List O × RpcCompletionReactor H I)
  hasty flags handler ca cb a b = do
    let (m, flags') = CompletionReactor.new {H = H} {I = I} flags handler
    let (sender, r) = channel {T = RpcNotification O}
    let c = Client.new sender m
    (ga, s) ← send_message outbound flags' c r.shared ca a >>= granted
    (o1, m1, r1) ← forward m (record r { shared = s })
    (gb, s1) ← send_message outbound flags' c r1.shared cb b >>= granted
    s2 ← drop_guard s1 gb
    (o2, m2, r2) ← forward m1 (record r1 { shared = s2 })
    (o3, m3, r3) ← forward m2 r2
    some (o1 ∷ o2 ∷ o3 ∷ [], m3)

  -- If the completion of a request is dropped before the connection has taken the request from its
  -- queue, the cancellation may go first: for the second request of any new client the peer is told
  -- to cancel it before it is told of it, and the registry still holds its completion after both.
  pub hasty-overtakes :
      (flags : Flags) (handler : H) (ca cb : Completion) (a b : O)
      → (m : RpcCompletionReactor H I) × (hasty flags handler ca cb a b
          ≡ some (a ∷ outbound.cancelled (outbound.message_id b) ∷ b ∷ [], m))
        × (lookup m.rpc_registry (outbound.message_id b) ≡ some cb)
  unfolding channel send_message drop_guard poll_next on_outbound_message Client.new
      CompletionReactor.new Chute.default
  hasty-overtakes flags handler ca cb a b =
      let id = outbound.message_id b in
      let start = (CompletionReactor.new {H = H} {I = I} flags handler).0 in
      (
        after (after (after start (notification outbound ca a)) (cancel_rpc id))
            (notification outbound cb b),
        rw (==_refl flags.next) refl,
        lookup-insert_self (remove ((outbound.message_id a, ca) ∷ []) id) id cb,
      )
