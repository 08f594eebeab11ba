-- ===== src/Buffers.antt =====
-- The buffers that encoders make: protosocket-connection/src/encoding.rs (OwnedBuffer, the encoder of
-- a serializer) and protosocket-connection/src/pooled_encoder.rs (Reusable, PooledEncoder).
pub mod OwnedBuffer
pub mod Reusable
pub mod PooledEncoder
pub mod Contents
pub mod Pooling
