-- ===== src/Fix/Recv.antt =====
-- crates/jeed-fix/src/recv: one message at a time, from a frame to the sink and the reply.
pub mod Stats
pub mod SymbolFilter
pub mod Sink
pub mod Pipeline
