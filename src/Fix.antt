-- ===== src/Fix.antt =====
-- crates/jeed-fix: the FIX 4.4 protocol, from bytes to session state.
pub mod Error
pub mod TagValue
pub mod Frame
pub mod MsgType
pub mod Session
pub mod FrameBuffer
pub mod Decimal
pub mod Time
pub mod Value
pub mod Admin
pub mod MarketData
pub mod Recv
pub mod Emit
