-- ===== src/Framing.antt =====
-- The two wire formats: protosocket-messagepack/src and protosocket-prost/src.
pub mod MessagePack
pub mod Prost
