-- ===== src/Rpc/RpcClient.antt =====
-- protosocket-rpc/src/client: the calls of an rpc client (rpc_client.rs), its configuration, and how it
-- connects (configuration.rs).
pub mod Sending
pub mod Overtaking
pub mod Connecting
use protosocket.Prelude.{ℕ, ◌*◌, ◌^◌, Bool, true, [], ◌∷◌, Option, none, some, the}
use protosocket.Spillway.Shared.{Shared}
use protosocket.Spillway.Sender
use protosocket.Spillway.Sender.{Sender}
use protosocket.Spillway.Receiver.{channel, channel_with_concurrency}
use protosocket.Connection.State
use protosocket.Connection.State.{Connection}
use protosocket.Listener.{
  Attempt, SocketCall, set_nonblocking, set_tcp_keepalive, set_tcp_nodelay, set_reuse_address,
  call_all,
}
use protosocket.Listener
use protosocket.Rpc.Message.{Message}
use protosocket.Rpc.Alive.{Flags, load}
use protosocket.Rpc.CompletionReactor
use protosocket.Rpc.CompletionReactor.{
  RpcCompletionReactor, RpcNotification, unary, remote_streaming, alive_handle, drop_reactor,
}
use protosocket.Rpc.Completions.{
  Result, ok, err, UnaryCompletion, StreamingCompletion, RpcClient, send_message,
}

-- `RpcClient::is_alive`
unfoldable pub is_alive : Flags → RpcClient → Bool
is_alive flags c = load flags c.is_alive

-- `RpcClient::new`
unfoldable pub new : {H I : Type 0} → Sender → RpcCompletionReactor H I → RpcClient
unfolding alive_handle
new submission_queue message_reactor = record {
  submission_queue = submission_queue;
  is_alive = alive_handle message_reactor;
}

module _ {O : Type 0} where
  -- `Clone`
  unfoldable pub clone :
      RpcClient → Shared (RpcNotification O) → Option (RpcClient × Shared (RpcNotification O))
  unfolding Sender.clone
  clone c s = elim (Sender.clone c.submission_queue s) [
    | none ↦ none
    | some (queue, s') ↦ some (record c { submission_queue = queue }, s')
  ]

  -- `send_unary`. A new oneshot is the address of its sending end and the state of its receiving end.
  unfoldable pub send_unary :
      {X : Type 0}
      → Message O
      → Flags
      → RpcClient
      → Shared (RpcNotification O)
      → ℕ × X
      → O
      → Option (Result (UnaryCompletion X) × Shared (RpcNotification O))
  unfolding send_message
  send_unary outbound flags c s (completor, completion) request =
      elim (send_message outbound flags c s (unary completor) request) [
        | none ↦ none
        | some (err e, s') ↦ some (err e, s')
        | some (ok guard, s') ↦
            some (ok (record { completion = completion; completion_guard = guard }), s')
      ]

  -- `send_streaming`. The new channel has the address `sender`.
  unfoldable pub send_streaming :
      {I : Type 0}
      → Message O
      → Flags
      → RpcClient
      → Shared (RpcNotification O)
      → ℕ
      → O
      → Option (Result (StreamingCompletion I) × Shared (RpcNotification O))
  unfolding send_message channel_with_concurrency
  send_streaming outbound flags c s sender request =
      let (_, completion) = the (channel_with_concurrency 1) tt in
      elim (send_message outbound flags c s (remote_streaming sender) request) [
        | none ↦ none
        | some (err e, s') ↦ some (err e, s')
        | some (ok guard, s') ↦ some (
          ok (record { completion = completion; completion_guard = guard; closed = Bool.false }),
          s',
        )
      ]

-- `Configuration`, with a stream connector of type `G`.
pub record Configuration (G : Type 0) : Type 0 where
  pub max_buffer_length : ℕ
  pub buffer_allocation_increment : ℕ
  pub max_queued_outbound_messages : ℕ
  pub tcp_keepalive_duration : Option ℕ
  pub stream_connector : G

module _ {G : Type 0} where
  unfoldable pub new_configuration : G → Configuration G
  new_configuration stream_connector = record {
    max_buffer_length = 4 * 2 ^ 20;
    buffer_allocation_increment = 2 ^ 20;
    max_queued_outbound_messages = 256;
    tcp_keepalive_duration = none;
    stream_connector = stream_connector;
  }

  unfoldable pub max_buffer_length : Configuration G → ℕ → Configuration G
  max_buffer_length c n = record c { max_buffer_length = n }

  unfoldable pub max_queued_outbound_messages : Configuration G → ℕ → Configuration G
  max_queued_outbound_messages c n = record c { max_queued_outbound_messages = n }

  unfoldable pub buffer_allocation_increment : Configuration G → ℕ → Configuration G
  buffer_allocation_increment c n = record c { buffer_allocation_increment = n }

  unfoldable pub tcp_keepalive_duration : Configuration G → Option ℕ → Configuration G
  tcp_keepalive_duration c duration = record c { tcp_keepalive_duration = duration }

  -- `connect`: `tcp_connect` opens a stream, `call` is a call of socket2 on it, `connect_stream` is that
  -- of the stream connector, and `handler` and `codec` are the default values. A reactor that the
  -- connect made is dropped when it fails.
  unfoldable pub connect :
      {A K S D H I B O E : Type 0}
      → (A → Attempt E K)
      → (K → SocketCall A → Attempt E K)
      → (G → K → Attempt E S)
      → H
      → D
      → A
      → Configuration G
      → Flags
      → Attempt E (RpcClient × Connection S D (RpcCompletionReactor H I) B (RpcNotification O))
        × Flags
  unfolding call_all channel new State.new CompletionReactor.new drop_reactor
  connect tcp_connect call connect_stream handler codec address configuration flags =
      elim (call_all call (tcp_connect address) (
        set_nonblocking true
        ∷ set_tcp_keepalive configuration.tcp_keepalive_duration
        ∷ set_tcp_nodelay true
        ∷ set_reuse_address true
        ∷ [])) [
          | Attempt.failed e ↦ (Attempt.failed e, flags)
          | Attempt.ok socket ↦
              let (message_reactor, flags') = CompletionReactor.new flags handler in
              let (outbound, outbound_messages) = channel in
              let rpc_client = new outbound message_reactor in
              elim (connect_stream configuration.stream_connector socket) [
                | Attempt.failed e ↦ (Attempt.failed e, drop_reactor message_reactor flags')
                | Attempt.ok stream ↦ (
                  Attempt.ok (
                    rpc_client,
                    State.new stream codec configuration.max_buffer_length
                        configuration.buffer_allocation_increment
                        configuration.max_queued_outbound_messages outbound_messages
                        message_reactor,
                  ),
                  flags',
                )
              ]
        ]
