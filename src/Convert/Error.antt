-- ===== src/Convert/Error.antt =====
-- `ParseErr` of crates/jeed-convert/src/error.rs.
pub data ParseErr : Type 0 where
  empty invalid_digit overflow neg_overflow unsigned_not_allowed : ParseErr
  invalid_point_index invalid_point_location invalid_length divide_by_zero precision : ParseErr
