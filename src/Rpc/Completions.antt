-- ===== src/Rpc/Completions.antt =====
-- protosocket-rpc/src/client: the completions that a caller waits on
-- (reactor/completion_unary.rs, reactor/completion_streaming.rs, and the guard of
-- reactor/completion_registry.rs), and rpc_client.rs that makes them.
pub mod Outcomes
use protosocket.Prelude.{
  Poll, ready, pending, ℕ, Bool, true, false, not, if◌then◌else◌, Option, none, some,
}
use protosocket.Spillway.Shared.{Shared}
use protosocket.Spillway.Sender
use protosocket.Spillway.Sender.{Sender}
use protosocket.Spillway.Receiver.{Receiver, poll_next}
use protosocket.Rpc.Message.{Message}
use protosocket.Rpc.Alive.{Flags, load}
use protosocket.Rpc.CompletionReactor.{
  Completion, CompletableRpc, RpcNotification, new_rpc, cancel_rpc,
}

-- `Error`
pub data Error : Type 0 where
  io_failure cancelled_remotely connection_is_closed finished : Error

-- `Result`
pub data Result (A : Type 0) : Type 0 where
  ok : A → Result A
  err : Error → Result A

pub record CompletionGuard : Type 0 where
  pub closed : Bool
  pub message_id : ℕ
  pub raw_submission_queue : Sender

-- The receiving end of a oneshot has state `X`.
pub record UnaryCompletion (X : Type 0) : Type 0 where
  pub completion : X
  pub completion_guard : CompletionGuard

pub record StreamingCompletion (I : Type 0) : Type 0 where
  pub completion : Receiver I
  pub completion_guard : CompletionGuard
  pub closed : Bool

-- `RpcClient`, with the address of its flag.
pub record RpcClient : Type 0 where
  pub submission_queue : Sender
  pub is_alive : ℕ

unfoldable pub new_guard : ℕ → Sender → CompletionGuard
new_guard message_id queue = record {
  closed = false;
  message_id = message_id;
  raw_submission_queue = queue;
}

unfoldable pub set_closed : CompletionGuard → CompletionGuard
set_closed g = record g { closed = true }

module _ {O : Type 0} where
  -- `Drop` of the guard, and then of its sender. A cancellation that cannot be sent is logged.
  unfoldable pub drop_guard :
      Shared (RpcNotification O) → CompletionGuard → Option (Shared (RpcNotification O))
  unfolding Sender.send Sender.drop_last
  drop_guard s g =
      if g.closed
      then some (Sender.drop_last g.raw_submission_queue s)
      else elim (Sender.send g.raw_submission_queue s (cancel_rpc g.message_id)) [
        | none ↦ none
        | some (_, s') ↦ some (Sender.drop_last g.raw_submission_queue s')
      ]

  -- `send_message`. When the queue refuses the request, the guard is dropped.
  unfoldable pub send_message :
      Message O
      → Flags
      → RpcClient
      → Shared (RpcNotification O)
      → Completion
      → O
      → Option (Result CompletionGuard × Shared (RpcNotification O))
  unfolding Sender.clone Sender.send new_guard drop_guard
  send_message outbound flags client s completion request =
      if not (load flags client.is_alive)
      then some (err connection_is_closed, s)
      else (let message_id = outbound.message_id request in
          elim (Sender.clone client.submission_queue s) [
            | none ↦ none
            | some (queue, s') ↦
                (let guard = new_guard message_id queue in
                  let rpc : CompletableRpc O = record {
                    message_id = message_id;
                    completion = completion;
                    request = request;
                  } in
                  elim (Sender.send client.submission_queue s' (new_rpc rpc)) [
                    | none ↦ none
                    | some (refusal, s'') ↦ elim refusal [
                      | none ↦ some (ok guard, s'')
                      | some _ ↦ elim (drop_guard s'' guard) [
                        | none ↦ none
                        | some s3 ↦ some (err connection_is_closed, s3)
                      ]
                    ]
                  ])
          ])

-- What a oneshot answers: a result, or that its sender was dropped (`none`).
module _ {X I : Type 0} (poll_oneshot : X → X × Poll (Option (Result I))) where
  unfoldable pub on_oneshot :
      UnaryCompletion X → Poll (Option (Result I)) → UnaryCompletion X × Poll (Result I)
  unfolding set_closed
  on_oneshot c (ready (some result)) =
      (record c { completion_guard = set_closed c.completion_guard }, ready result)
  on_oneshot c (ready none) = (
    record c { completion_guard = set_closed c.completion_guard },
    ready (err cancelled_remotely),
  )
  on_oneshot c pending = (c, pending)

  unfoldable pub poll_unary : UnaryCompletion X → UnaryCompletion X × Poll (Result I)
  unfolding on_oneshot
  poll_unary c =
      let (x, p) = poll_oneshot c.completion in on_oneshot (record c { completion = x }) p

module _ {I : Type 0} where
  unfoldable pub on_received :
      StreamingCompletion I → Poll (Option I) → StreamingCompletion I × Poll (Option (Result I))
  unfolding set_closed
  on_received c (ready (some next)) = (c, ready (some (ok next)))
  on_received c (ready none) = (
    record c { closed = true; completion_guard = set_closed c.completion_guard },
    ready (some (err finished)),
  )
  on_received c pending = (c, pending)

  -- `none` is a panic.
  unfoldable pub poll_streaming :
      StreamingCompletion I → Option (StreamingCompletion I × Poll (Option (Result I)))
  unfolding poll_next on_received
  poll_streaming c = if c.closed then some (c, ready none) else elim (poll_next c.completion) [
    | none ↦ none
    | some (p, r) ↦ some (on_received (record c { completion = r }) p)
  ]
