-- ===== src/Convert/Checked.antt =====
-- crates/jeed-convert/src/decimal_core: words out of bytes (le_bytes.rs), and digits to a number after a
-- check (checked_conversion.rs).
pub mod Exact
use jeed.Base.{
  ℕ, ◌-◌, List, [], ◌∷◌, ◌++◌, length, replicate, if◌then◌else◌, leb, ◌&&◌, Result, ok, err,
}
use jeed.Convert.Error.{ParseErr, empty, invalid_digit}
use jeed.Convert.Check.{check_decimal_bit_u16_optimal, check_decimal_bit_u32_optimal}
use jeed.Convert.Check.{check_decimal_bit_u64_optimal, check_decimal_bit_u128_optimal}
use jeed.Convert.Check.Borrows.{le_value}
use jeed.Convert.Bcd.{two_to_u16_decimal, four_to_u32, eight_to_u64, sixteen_to_u128}

-- The bytes at the end of an array of `k`, as a little-endian number. A longer input is a panic.
abbrev pub right_aligned : ℕ → List ℕ → ℕ
right_aligned k input = le_value (replicate (k - length input) 0 ++ input)

unfoldable pub le_bytes_to_u16 : List ℕ → ℕ
le_bytes_to_u16 input = right_aligned 2 input

unfoldable pub le_bytes_to_u32 : List ℕ → ℕ
le_bytes_to_u32 input = right_aligned 4 input

unfoldable pub le_bytes_to_u64 : List ℕ → ℕ
le_bytes_to_u64 input = right_aligned 8 input

unfoldable pub le_bytes_to_u128 : List ℕ → ℕ
le_bytes_to_u128 input = right_aligned 16 input

unfoldable pub checked_conversion_u8 : List ℕ → Result ParseErr ℕ
checked_conversion_u8 [] = err empty
checked_conversion_u8 (byte ∷ bytes) =
    if leb 0x30 byte && leb byte 0x39 then ok (byte - 0x30) else err invalid_digit

unfoldable pub checked_conversion_u16 : List ℕ → Result ParseErr ℕ
checked_conversion_u16 input =
    let chunk = le_bytes_to_u16 input in
    if check_decimal_bit_u16_optimal chunk then ok (two_to_u16_decimal chunk) else err invalid_digit

unfoldable pub checked_conversion_u32 : List ℕ → Result ParseErr ℕ
checked_conversion_u32 input =
    let chunk = le_bytes_to_u32 input in
    if check_decimal_bit_u32_optimal chunk then ok (four_to_u32 chunk) else err invalid_digit

unfoldable pub checked_conversion_u64 : List ℕ → Result ParseErr ℕ
checked_conversion_u64 input =
    let chunk = le_bytes_to_u64 input in
    if check_decimal_bit_u64_optimal chunk then ok (eight_to_u64 chunk) else err invalid_digit

unfoldable pub checked_conversion_u128 : List ℕ → Result ParseErr ℕ
checked_conversion_u128 input =
    let chunk = le_bytes_to_u128 input in
    if check_decimal_bit_u128_optimal chunk then ok (sixteen_to_u128 chunk) else err invalid_digit
