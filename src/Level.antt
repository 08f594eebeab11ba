-- ===== src/Level.antt =====
-- level-runtime/src: a runtime of one thread per worker. Worker.antt is concurrency_tracker.rs and
-- worker.rs, Runtime.antt is runtime.rs, and Builder.antt is builder.rs.
pub mod Worker
pub mod Runtime
pub mod Load
pub mod Balance
pub mod Builder
pub mod Names
