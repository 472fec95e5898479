-- ===== src/Fix/Error.antt =====
-- crates/jeed-fix/src/error.rs: what framing and decoding can report.
use jeed.Base.{ℕ}

-- The payloads are the fields of the source's variants, in its order.
pub data FixError : Type 0 where
  incomplete : FixError
  begin_string : FixError
  body_length : ℕ → FixError
  trailer : FixError
  check_sum : ℕ → ℕ → FixError
  field : ℕ → FixError
  missing_tag : ℕ → FixError
  bad_value : ℕ → FixError
  precision : ℕ → FixError
  unexpected_msg_type : ℕ → FixError
  too_many_entries : ℕ → ℕ → FixError
  entry_count : ℕ → ℕ → FixError
  group_tag_outside_entry : ℕ → FixError
  unknown_update_action : ℕ → FixError
