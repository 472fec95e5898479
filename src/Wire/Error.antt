-- ===== src/Wire/Error.antt =====
-- crates/jeed-wire/src/error.rs, and the kinds of kind.rs.
use jeed.Base.{ℕ}

pub data WireKind : Type 0 where
  quote trade trade_quote open_interest investor_stats snapshot_delta : WireKind
  price_limit market_schedule heartbeat dynamic_price_limit : WireKind

pub data WireError : Type 0 where
  length : (expected actual : ℕ) → WireError
  alignment magic : ℕ → WireError
  format_version record_size : (expected found : ℕ) → WireError
  capacity : WireError
  kind : (found : ℕ) → WireError
  kind_mismatch : (expected found : WireKind) → WireError
  venue scale : (found : ℕ) → WireError
  depth : (found max : ℕ) → WireError
  trade_kind level_ext_kind quote_ext_kind : (found : ℕ) → WireError
  expansion_direction dyn_limit_action : (found : ℕ) → WireError
  delta_level_count : (bid ask max : ℕ) → WireError
