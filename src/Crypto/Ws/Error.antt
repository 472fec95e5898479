-- ===== src/Crypto/Ws/Error.antt =====
-- `WsError` of crates/jeed-crypto/src/recv/ws/mod.rs.
use jeed.Base.{ℕ}

pub data WsError : Type 0 where
  reserved_bits : WsError
  opcode : (nibble : ℕ) → WsError
  masked_by_server length_bit fragmented_control : WsError
  control_too_long : (len : ℕ) → WsError
  unexpected_continuation interleaved_message : WsError
  message_too_long : (limit : ℕ) → WsError
  no_room : WsError
  status : (code : ℕ) → WsError
  malformed_response upgrade connection accept extension subprotocol : WsError
