-- ===== src/Server.antt =====
-- protosocket-server/src/connection_server.rs: the settings of a server, and the future that accepts
-- streams and spawns a connection for each. The connector is a parameter.
pub mod Connections
use protosocket.Prelude.{
  Poll, Run, ℕ, ◌*◌, ◌^◌, Bool, true, List, [], ◌∷◌, ◌++◌, Option, none, some, the,
}
use protosocket.Spillway.Shared.{Shared}
use protosocket.Spillway.Sender
use protosocket.Spillway.Sender.{Sender}
use protosocket.Spillway.Receiver.{channel}
use protosocket.Connection.State
use protosocket.Connection.State.{Connection}
use protosocket.Listener.{SocketListener, Attempt, ok, failed}
use protosocket.Listener.Serving.{Spawned, serve_loop}

-- `ServerConnector`, of state `C`. `new_reactor` owns a sender of the connection's channel, and may send
-- on it, clone it, keep it in the connector or drop it: it is given the channel and hands it back,
-- and so does `codec`. `spawn_connection` is given the connection, and the log of the server holds
-- what it was given.
pub record ServerConnector (C D R S O : Type 0) : Type 0 where
  pub codec : C → Shared O → C × D × Shared O
  pub new_reactor : C → Sender → Shared O → S → C × R × Shared O

pub record ProtosocketServer (C L S D R B O : Type 0) : Type 0 where
  pub connector : C
  pub listener : L
  pub max_buffer_length : ℕ
  pub buffer_allocation_increment : ℕ
  pub max_queued_outbound_messages : ℕ
  pub spawned : List (Spawned (Connection S D R B O))  -- the first one first

pub record ProtosocketSocketConfig : Type 0 where
  pub nodelay : Bool
  pub reuse : Bool
  pub keepalive_duration : Option ℕ
  pub listen_backlog : ℕ

pub record ProtosocketServerConfig : Type 0 where
  pub max_buffer_length : ℕ
  pub max_queued_outbound_messages : ℕ
  pub buffer_allocation_increment : ℕ
  pub socket_config : ProtosocketSocketConfig

-- The setters of `ProtosocketSocketConfig` and of `ProtosocketServerConfig`.
unfoldable pub nodelay : ProtosocketSocketConfig → Bool → ProtosocketSocketConfig
nodelay c value = record c { nodelay = value }

unfoldable pub reuse : ProtosocketSocketConfig → Bool → ProtosocketSocketConfig
reuse c value = record c { reuse = value }

unfoldable pub keepalive_duration : ProtosocketSocketConfig → ℕ → ProtosocketSocketConfig
keepalive_duration c value = record c { keepalive_duration = some value }

unfoldable pub listen_backlog : ProtosocketSocketConfig → ℕ → ProtosocketSocketConfig
listen_backlog c backlog = record c { listen_backlog = backlog }

unfoldable pub default_socket_config : ProtosocketSocketConfig
default_socket_config = record {
  nodelay = true;
  reuse = true;
  keepalive_duration = none;
  listen_backlog = 65536;
}

unfoldable pub max_buffer_length : ProtosocketServerConfig → ℕ → ProtosocketServerConfig
max_buffer_length c value = record c { max_buffer_length = value }

unfoldable pub max_queued_outbound_messages : ProtosocketServerConfig → ℕ → ProtosocketServerConfig
max_queued_outbound_messages c value = record c { max_queued_outbound_messages = value }

unfoldable pub buffer_allocation_increment : ProtosocketServerConfig → ℕ → ProtosocketServerConfig
buffer_allocation_increment c value = record c { buffer_allocation_increment = value }

unfoldable pub socket_config :
    ProtosocketServerConfig → ProtosocketSocketConfig → ProtosocketServerConfig
socket_config c config = record c { socket_config = config }

unfoldable pub default_server_config : ProtosocketServerConfig
unfolding default_socket_config
default_server_config = record {
  max_buffer_length = 16 * 2 ^ 21;
  max_queued_outbound_messages = 128;
  buffer_allocation_increment = 2 ^ 20;
  socket_config = default_socket_config;
}

module _ {C L S D R B O : Type 0} where
  unfoldable pub new_server : L → C → ProtosocketServerConfig → ProtosocketServer C L S D R B O
  new_server listener connector config = record {
    connector = connector;
    listener = listener;
    max_buffer_length = config.max_buffer_length;
    max_queued_outbound_messages = config.max_queued_outbound_messages;
    buffer_allocation_increment = config.buffer_allocation_increment;
    spawned = [];
  }

  -- `bind_tcp`, where `listen` is `TcpSocketListener::listen`.
  unfoldable pub bind_tcp :
      {A E : Type 0}
      → (A → ℕ → Option ℕ → Attempt E L)
      → ProtosocketServerConfig
      → A
      → C
      → Attempt E (ProtosocketServer C L S D R B O)
  unfolding new_server
  bind_tcp listen config address connector =
      elim (listen address config.socket_config.listen_backlog
        config.socket_config.keepalive_duration) [
          | failed e ↦ failed e
          | ok listener ↦ ok (new_server listener connector config)
        ]

  unfoldable pub build_server : ProtosocketServerConfig → L → C → ProtosocketServer C L S D R B O
  unfolding new_server
  build_server config listener connector = new_server listener connector config

  module _ (connector : ServerConnector C D R S O) where
    -- A stream that was accepted. The reactor gets a clone of the first sender, which is dropped at the
    -- end of the block, when the connection is spawned already. A clone does not panic: there are
    -- chutes.
    unfoldable pub serve : ProtosocketServer C L S D R B O → S → ProtosocketServer C L S D R B O
    unfolding channel Sender.clone State.new
    serve v s =
        let (outbound_submission_queue, outbound_messages) = channel in
        let (clone, shared) =
          the (Sender.clone outbound_submission_queue outbound_messages.shared) tt in
        let (c, reactor, shared') = connector.new_reactor v.connector clone shared s in
        let (c', codec, shared'') = connector.codec c shared' in
        let connection =
          State.new s codec v.max_buffer_length v.buffer_allocation_increment
            v.max_queued_outbound_messages (record outbound_messages { shared = shared'' })
            reactor in
        record v {
          connector = c';
          spawned =
              v.spawned
              ++ record { connection = connection; then_dropped = outbound_submission_queue } ∷ [];
        }

    -- `poll` of the server's future.
    unfoldable pub poll :
        SocketListener L S
        → ℕ
        → ProtosocketServer C L S D R B O
        → Run (ProtosocketServer C L S D R B O × Poll (Unit {0}))
    unfolding serve_loop serve
    poll listener fuel v =
        serve_loop listener (λ w. w.listener) (λ w l. record w { listener = l }) serve fuel v
