-- ===== src/Rpc.antt =====
-- protosocket-rpc/src: the messages, the server's and the client's reactors, and the pool of clients.
pub mod Message
pub mod Alive
pub mod RpcStream
pub mod ServerTraits
pub mod RpcSubmitter
pub mod CompletionReactor
pub mod Completions
pub mod RpcClient
pub mod ConnectionPool
pub mod SocketServer
pub mod Hosting
