-- ===== src/Convert/Bcd.antt =====
-- crates/jeed-convert/src/decimal_core/bcd.rs: the digits in a word put together, pairs first.
pub mod Lanes
pub mod Stages
pub mod Value
use Prim.Native.Nat.{bit_and}
use jeed.Base.{ℕ, ◌+◌, ◌*◌, ◌/◌, ◌^◌}

-- No step's sum or product reaches the width.
unfoldable pub two_to_u16_decimal : ℕ → ℕ
two_to_u16_decimal chunk = bit_and chunk 0x0f00 / 2 ^ 8 + bit_and chunk 0x000f * 10

unfoldable pub four_to_u32 : ℕ → ℕ
four_to_u32 chunk =
    let pairs = bit_and chunk 0x0f000f00 / 2 ^ 8 + bit_and chunk 0x000f000f * 10 in
    bit_and pairs 0x00ff0000 / 2 ^ 16 + bit_and pairs 0x000000ff * 100

unfoldable pub eight_to_u64 : ℕ → ℕ
eight_to_u64 chunk =
    let pairs = bit_and chunk 0x0f000f000f000f00 / 2 ^ 8 + bit_and chunk 0x000f000f000f000f * 10 in
    let fours =
      bit_and pairs 0x00ff000000ff0000 / 2 ^ 16 + bit_and pairs 0x000000ff000000ff * 100 in
    bit_and fours 0x0000ffff00000000 / 2 ^ 32 + bit_and fours 0x000000000000ffff * 10000

unfoldable pub sixteen_to_u128 : ℕ → ℕ
sixteen_to_u128 chunk =
    let pairs =
      bit_and chunk 0x0f000f000f000f000f000f000f000f00 / 2 ^ 8
      + bit_and chunk 0x000f000f000f000f000f000f000f000f * 10 in
    let fours =
      bit_and pairs 0x00ff000000ff000000ff000000ff0000 / 2 ^ 16
      + bit_and pairs 0x000000ff000000ff000000ff000000ff * 100 in
    let eights =
      bit_and fours 0x0000ffff000000000000ffff00000000 / 2 ^ 32
      + bit_and fours 0x000000000000ffff000000000000ffff * 10000 in
    bit_and eights 0x00000000ffffffff0000000000000000 / 2 ^ 64
    + bit_and eights 0x000000000000000000000000ffffffff * 100000000
