-- ===== src/Spillway.antt =====
-- spillway/src: an unbounded or softly bounded channel of many senders and one receiver.
-- Shared.antt is shared.rs, Sender.antt is sender.rs and the constructors of lib.rs, and
-- Receiver.antt is receiver.rs.
pub mod Chute
pub mod Shared
pub mod Contents
pub mod Sender
pub mod Receiver
pub mod Enqueue
pub mod Sending
pub mod Fifo
pub mod EmptyBatch
pub mod Race
