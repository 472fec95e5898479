-- ===== src/Crypto.antt =====
-- crates/jeed-crypto: the WebSocket link that venues' market data comes over, and the receive loop.
pub mod Ws
pub mod Recv
