-- ===== src/Convert/Check.antt =====
-- crates/jeed-convert/src/decimal_core/check.rs: whether every byte of a word is an ASCII digit.
pub mod Borrows
use Prim.Native.Nat.{bit_and}
use jeed.Base.{ℕ, ◌+◌, ◌-◌, ◌%◌, ◌^◌, Bool, ◌==◌}

-- `wrapping_sub` at a width of `w` bits.
abbrev pub wrapping_sub : ℕ → ℕ → ℕ → ℕ
wrapping_sub w a b = (a + (2 ^ w - b)) % 2 ^ w

unfoldable pub check_decimal_bit_u16_optimal : ℕ → Bool
check_decimal_bit_u16_optimal chunk =
    let not_above = wrapping_sub 16 chunk 0x3A3A in
    let not_below = wrapping_sub 16 0x2F2F chunk in
    bit_and (bit_and not_above not_below) 0x8080 == 0x8080

unfoldable pub check_decimal_bit_u32_optimal : ℕ → Bool
check_decimal_bit_u32_optimal chunk =
    let not_above = wrapping_sub 32 chunk 0x3A3A3A3A in
    let not_below = wrapping_sub 32 0x2F2F2F2F chunk in
    bit_and (bit_and not_above not_below) 0x80808080 == 0x80808080

unfoldable pub check_decimal_bit_u64_optimal : ℕ → Bool
check_decimal_bit_u64_optimal chunk =
    let not_above = wrapping_sub 64 chunk 0x3A3A3A3A3A3A3A3A in
    let not_below = wrapping_sub 64 0x2F2F2F2F2F2F2F2F chunk in
    bit_and (bit_and not_above not_below) 0x8080808080808080 == 0x8080808080808080

unfoldable pub check_decimal_bit_u128_optimal : ℕ → Bool
check_decimal_bit_u128_optimal chunk =
    let not_above = wrapping_sub 128 chunk 0x3A3A3A3A3A3A3A3A3A3A3A3A3A3A3A3A in
    let not_below = wrapping_sub 128 0x2F2F2F2F2F2F2F2F2F2F2F2F2F2F2F2F chunk in
    bit_and (bit_and not_above not_below) 0x80808080808080808080808080808080
    == 0x80808080808080808080808080808080
