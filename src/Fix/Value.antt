-- ===== src/Fix/Value.antt =====
-- `Field`'s accessors in crates/jeed-fix/src/tagvalue.rs, and `FixText` of market_data.rs.
use jeed.Base.{ℕ, ◌-◌, ◌%◌, List, [], ◌∷◌, ◌++◌, Bool, false, ◌==◌}
use jeed.Base.{Result, ok, err, ◌>>=◌, ok_or, length, take, replicate, min}
use jeed.Base.Ints.{ℤ, pos, negsuc}
use jeed.Fix.Error.{FixError}
use jeed.Fix.TagValue.{Field, parse_u64, to_u32}
use jeed.Fix.Decimal.{DecimalError, parse_scaled_decimal}
use jeed.Wire.Types.{Scale}
use jeed.Fix.Time.{parse_utc_timestamp, parse_utc_date, parse_utc_time}

abbrev only_byte : ℕ → List ℕ → Result FixError ℕ
only_byte tag (b ∷ []) = ok b
only_byte tag _ = err (FixError.bad_value tag)

abbrev pub first_byte : Field → Result FixError ℕ
first_byte f = only_byte f.tag f.value

abbrev pub as_u64 : Field → Result FixError ℕ
as_u64 f = ok_or (parse_u64 f.value) (FixError.bad_value f.tag)

abbrev pub as_u32 : Field → Result FixError ℕ
as_u32 f = do v ← as_u64 f; ok_or (to_u32 v) (FixError.bad_value f.tag)

abbrev map_decimal : {A : Type 0} → ℕ → Result DecimalError A → Result FixError A
map_decimal tag (ok v) = ok v
map_decimal tag (err DecimalError.precision) = err (FixError.precision tag)
map_decimal tag (err DecimalError.malformed) = err (FixError.bad_value tag)

abbrev pub as_scaled : Field → Scale → Result FixError ℤ
as_scaled f scale = map_decimal f.tag (parse_scaled_decimal f.value scale)

-- `u64::try_from(v)`
abbrev unsigned : ℕ → ℤ → Result FixError ℕ
unsigned tag (pos v) = ok v
unsigned tag (negsuc v) = err (FixError.bad_value tag)

abbrev pub as_scaled_unsigned : Field → Scale → Result FixError ℕ
as_scaled_unsigned f scale = do v ← as_scaled f scale; unsigned f.tag v

abbrev pub as_utc_timestamp : Field → Result FixError ℕ
as_utc_timestamp f = ok_or (parse_utc_timestamp f.value) (FixError.bad_value f.tag)

abbrev pub as_utc_date : Field → Result FixError ℕ
as_utc_date f = ok_or (parse_utc_date f.value) (FixError.bad_value f.tag)

abbrev pub as_utc_time : Field → Result FixError ℕ
as_utc_time f = ok_or (parse_utc_time f.value) (FixError.bad_value f.tag)

abbrev is_y : List ℕ → Bool
is_y (b ∷ []) = b == b'Y'
is_y _ = false

abbrev pub is_yes : Field → Bool
is_yes f = is_y f.value

-- `value.first().copied().unwrap_or(0)`
abbrev pub first_or_zero : List ℕ → ℕ
first_or_zero [] = 0
first_or_zero (b ∷ bs) = b

abbrev pub fix_text_len : ℕ
fix_text_len = 32

-- The array is padded with zeros.
pub record FixText : Type 0 where
  pub bytes : List ℕ
  pub len : ℕ

abbrev pub empty_text : FixText
empty_text = record { bytes = replicate 32 0; len = 0 }

unfoldable pub new_text : List ℕ → FixText
new_text value =
    let n = min (length value) fix_text_len in
    record { bytes = take n value ++ replicate (fix_text_len - n) 0; len = n % 256 }

abbrev pub as_bytes : FixText → List ℕ
as_bytes t = take t.len t.bytes

abbrev pub is_empty_text : FixText → Bool
is_empty_text t = t.len == 0
