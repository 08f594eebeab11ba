-- ===== src/Connection.antt =====
-- protosocket-connection/src/connection.rs: the driver of one connection. Codec.antt is the traits
-- that a connection is built from (encoding.rs, error.rs, message_reactor.rs). Here State is the
-- struct, Receive and Send are the two halves of the poll, Driving is about the whole poll, and Start
-- about a new connection.
pub mod State
pub mod Receive
pub mod Send
pub mod Driving
pub mod Start
