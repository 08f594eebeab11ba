-- ===== src/Rpc/SocketServer.antt =====
-- protosocket-rpc/src/server/socket_server.rs and spawn.rs: the server that accepts streams and spawns
-- a connection with an RpcSubmitter for each. The service and the spawner are parameters.
pub mod Connections
use protosocket.Prelude.{Poll, Run, ℕ, List, [], ◌∷◌, ◌++◌}
use protosocket.Spillway.Sender
use protosocket.Spillway.Receiver.{channel}
use protosocket.Connection.State
use protosocket.Connection.State.{Connection}
use protosocket.Listener.{SocketListener}
use protosocket.Listener.Serving.{Spawned, serve_loop}
use protosocket.Rpc.RpcSubmitter
use protosocket.Rpc.RpcSubmitter.{RpcSubmitter}

-- `SocketService`, of state `C`; `K` is the state of a connection's service.
pub record SocketService (C D K S : Type 0) : Type 0 where
  pub codec : C → C × D
  pub new_stream_service : C → S → C × K

-- `SocketRpcServer`. `Spawn::spawn` is given the connection, and `spawned` holds what it was given, the
-- first one first. `P` is the state of an RpcSubmitter's pool of rpcs.
pub record SocketRpcServer (C L S D K P B O : Type 0) : Type 0 where
  pub socket_server : C
  pub spawned : List (Spawned (Connection S D (RpcSubmitter K P) B O))
  pub listener : L
  pub max_buffer_length : ℕ
  pub buffer_allocation_increment : ℕ
  pub max_queued_outbound_messages : ℕ

module _ {C L S D K P B O : Type 0} where
  unfoldable pub new_with_spawner : L → C → ℕ → ℕ → ℕ → SocketRpcServer C L S D K P B O
  new_with_spawner listener socket_server max_buffer_length buffer_allocation_increment
        max_queued_outbound_messages =
      record {
        socket_server = socket_server;
        spawned = [];
        listener = listener;
        max_buffer_length = max_buffer_length;
        buffer_allocation_increment = buffer_allocation_increment;
        max_queued_outbound_messages = max_queued_outbound_messages;
      }

  unfoldable pub set_max_buffer_length :
      SocketRpcServer C L S D K P B O → ℕ → SocketRpcServer C L S D K P B O
  set_max_buffer_length v n = record v { max_buffer_length = n }

  unfoldable pub set_max_queued_outbound_messages :
      SocketRpcServer C L S D K P B O → ℕ → SocketRpcServer C L S D K P B O
  set_max_queued_outbound_messages v n = record v { max_queued_outbound_messages = n }

  -- `no_rpcs` is an empty `FuturesUnordered`.
  module _ (service : SocketService C D K S) (no_rpcs : P) where
    -- A stream that was accepted. The one sender of the channel is dropped at the end of the block,
    -- when the connection is spawned already.
    unfoldable pub serve : SocketRpcServer C L S D K P B O → S → SocketRpcServer C L S D K P B O
    unfolding channel State.new RpcSubmitter.new
    serve v s =
        let (c, connection_service) = service.new_stream_service v.socket_server s in
        let (no_senders, outbound_messages_receiver) = channel in
        let submitter = RpcSubmitter.new connection_service no_rpcs in
        let (c', codec) = service.codec c in
        let connection =
          State.new s codec v.max_buffer_length v.buffer_allocation_increment
            v.max_queued_outbound_messages outbound_messages_receiver submitter in
        record v {
          socket_server = c';
          spawned = v.spawned ++ record { connection = connection; then_dropped = no_senders } ∷ [];
        }

    -- `poll` of the server's future.
    unfoldable pub poll :
        SocketListener L S
        → ℕ
        → SocketRpcServer C L S D K P B O
        → Run (SocketRpcServer C L S D K P B O × Poll (Unit {0}))
    unfolding serve_loop serve
    poll listener fuel v =
        serve_loop listener (λ w. w.listener) (λ w l. record w { listener = l }) serve fuel v
