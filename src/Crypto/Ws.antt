-- ===== src/Crypto/Ws.antt =====
-- crates/jeed-crypto/src/recv/ws: RFC 6455, the client's half.
pub mod Error
pub mod Frame
pub mod Assembly
