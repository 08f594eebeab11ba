-- ===== src/Lib.antt =====
-- A model of protosocket: message-oriented connections over byte streams, an rpc layer on top of
-- them, and the channel that feeds both.
--
-- The program's parts, and how they meet. spillway is a channel of many senders and one receiver; each
-- sender has a chute of its own, and the receiver takes whole chutes. A Connection of
-- protosocket-connection owns a stream, a receive buffer, a queue of serialized buffers, the receiver
-- of a spillway channel with the outbound messages, a codec and a reactor. One poll of it reads from
-- the stream, decodes what it can and tells the reactor (poll_receive), polls the reactor, serializes
-- messages of the channel and of the reactor within a budget, and writes (poll_writev_buffers). The
-- codec comes from outside, as an Encoder and a Decoder; PooledEncoder makes an encoder of a
-- serializer, and protosocket-messagepack and protosocket-prost are codecs for two formats.
-- protosocket-rpc gives two reactors: RpcSubmitter, which hosts the rpcs of a server and answers
-- within the connection's budget, and RpcCompletionReactor, which hands the responses that a client
-- gets to the rpcs that wait for them. RpcClient puts requests into the queue of its connection, and
-- ConnectionPool shares such clients. A SocketListener accepts streams over TCP or TLS;
-- ProtosocketServer and SocketRpcServer make a Connection of each and spawn it. level-runtime is a
-- runtime with one thread per worker, on which a server's connections may run.
--
-- Which file models what:
--   Prelude and below: lists over the native numbers, machine words, association lists for hash maps,
--     Poll, and Run for code that may panic or whose loop is on fuel.
--   Spillway: spillway/src. Chute and Shared (shared.rs), Sender (sender.rs), Receiver (receiver.rs).
--     Contents holds lemmas; Receiver/Validity, Receiver/Fresh, Receiver/Cloned, Receiver/Handed,
--     Receiver/Batches, Enqueue, Sending, Fifo and EmptyBatch hold properties. Race has the steps of a poll and of the
--     senders between which others may come; its Watching, Looking, Wakes and Ending are about those,
--     and Whole, Runs, Alone, Sends, Holding, Senders and Histories about operations with nothing
--     between.
--   Codec, SendBudget, Reactor: the traits and the budget of protosocket-connection/src
--     (encoding.rs, error.rs, message_reactor.rs, send_budget.rs), and what a connection uses of
--     tokio's streams and of bytes' Buf.
--   Connection/State, Receive, Send: protosocket-connection/src/connection.rs. Below Receive: Cursor,
--     Consumes and Reaction describe a pass over the buffer, Sides, Decode, Totality, Rounds, Polling
--     and Faults hold the properties. Below Send: Sides, Wire, Draining, Serialize, Attempts, Writing and
--     Closing. Connection/Driving is about the whole poll, Connection/Start about a new connection.
--   Buffers: OwnedBuffer (encoding.rs), Reusable and PooledEncoder (pooled_encoder.rs), and their
--     properties in Contents and Pooling.
--   Rpc/Message: protosocket-rpc/src/message.rs. Rpc/ServerTraits, Rpc/RpcStream, Rpc/RpcSubmitter:
--     protosocket-rpc/src/server (server_traits.rs, rpc_stream.rs, rpc_submitter.rs,
--     abortion_tracker.rs). Rpc/CompletionReactor: protosocket-rpc/src/client/reactor
--     (completion_reactor.rs, completion_registry.rs). Rpc/Completions: completion_unary.rs and
--     completion_streaming.rs there, and protosocket-rpc/src/client/rpc_client.rs.
--     Rpc/Alive: the flag of a connection, an Arc<AtomicBool>, that these share.
--     Rpc/ConnectionPool: protosocket-rpc/src/client/connection_pool.rs, with Claims and Slots.
--     Rpc/RpcClient: rpc_client.rs and configuration.rs of protosocket-rpc/src/client, with Sending,
--     Overtaking and Connecting. Rpc/SocketServer: protosocket-rpc/src/server/socket_server.rs.
--     Rpc/Hosting: rpc_submitter.rs as the reactor of connection.rs.
--   Listener: protosocket-connection/src/socket_listener.rs, with InFlight and Handshakes for TLS, and
--     Serving, the loop of both servers. Server: protosocket-server/src/connection_server.rs.
--   Level: level-runtime/src. Worker (concurrency_tracker.rs, worker.rs), Runtime (runtime.rs) and
--     Builder (builder.rs); Load, Balance and Names hold properties.
--   Framing: protosocket-messagepack/src and protosocket-prost/src.
--   Tests: runs at small inputs, and the properties at inputs that meet their hypotheses.
--
-- How the code is read. Each step of an asynchronous function runs under the lock or the exclusive
-- reference that the code holds, and is one function from a state to a state; what other threads do
-- comes between steps. Spillway/Race alone goes down to single accesses. A flag that several
-- parts share has an address in a store, or a cell of its own; the channels of waiting rpcs are a
-- log of what went into them. Bytes are numbers, a usize wraps at 2 ^ 64 where the code adds or
-- subtracts without a test, and a panic is a value (none, or panic). Streams, codecs, serializers, reactors, services and
-- futures' FuturesUnordered are parameters, with records that name what they are asked; laws of
-- theirs that a property needs are named hypotheses.
--
-- Loops. The pass over the receive buffer is on rounds, of which it needs no more than there are
-- unread bytes, since an honest codec consumes at least one byte for each message. poll_receive and
-- poll_writev_buffers are on fuel, for a stream that answers a given number of attempts before it
-- waits; more fuel than that number is enough. drain_queue has as many rounds as the send buffer has
-- room, and each round but the last fills a place. A turn of RpcSubmitter needs more rounds than twice
-- what the budget has left and the rpcs in the pool, since each round sends or retires an rpc. The
-- loop that claims a pool's slot takes its lock in each round, with other tasks between the rounds; it
-- needs three, if these do not take the slot further from a claim.
--
-- The loops of the TLS listener need more rounds than there are streams to accept and handshakes in
-- flight, those of the servers more than there are streams. A number has at most 20 decimal digits.
--
-- Not modelled: what socket2, tokio, rustls and rand do, which are parameters; the threads and the tokio
-- runtimes of level-runtime, and the settings that its builder passes on to tokio's; the connectors
-- of stream_connector.rs, which pass a stream to rustls; logging and Display; rpc_drop_guard.rs, which
-- no mod line names; the benchmarks and the examples.
pub mod Prelude
pub mod Spillway
pub mod Codec
pub mod SendBudget
pub mod Reactor
pub mod Connection
pub mod Buffers
pub mod Listener
pub mod Server
pub mod Rpc
pub mod Framing
pub mod Level
pub mod Tests
