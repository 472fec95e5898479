-- ===== src/Fix/Emit.antt =====
-- crates/jeed-fix/src/recv/emit.rs: the messages that this side of a session sends.
pub mod Writer
pub mod Emitter
pub mod Writes
pub mod Built
pub mod Sent
pub mod Stamp
pub mod StampRead
pub mod Read
pub mod Messages
