-- ===== src/Crypto/Recv.antt =====
-- crates/jeed-crypto/src/recv: counters, pipeline, link and receive loop.
pub mod Stats
pub mod Pipeline
pub mod Link
pub mod Dispatch
pub mod Receiver
