-- ===== src/Convert/Bcd/Value.antt =====
-- The words' values: on digits, those of the decimal numeral.
use Prim.Native.Nat.{bit_and}
use jeed.Base.{ℕ, ◌+◌, ◌*◌, ◌/◌, ◌%◌, ◌<◌, ◌≡◌, ap, ◌∙◌, arith}
use jeed.Base.{List, [], ◌∷◌, true, false, All}
use jeed.Convert.Check.Borrows.{le_value}
use jeed.Convert.Bcd.{two_to_u16_decimal, four_to_u32, eight_to_u64, sixteen_to_u128}
use jeed.Convert.Bcd.Lanes.{bit_and-kept}
use jeed.Convert.Bcd.Stages.{
  stage_4_8, stage_2_16, stage_8_8, stage_4_16, stage_2_32, stage_16_8, stage_8_16, stage_4_32,
  stage_2_64,
}

-- The number that a text of digits writes, each by the low half of its byte.
abbrev pub digits_value : ℕ → List ℕ → ℕ
digits_value acc [] = acc
digits_value acc (b ∷ bs) = digits_value (acc * 10 + b % 16) bs

pub two_to_u16_decimal_lem :
    (a b : ℕ)
    → a < 256
    → b < 256
    → two_to_u16_decimal (le_value (a ∷ b ∷ [])) ≡ digits_value 0 (a ∷ b ∷ [])
unfolding two_to_u16_decimal
two_to_u16_decimal_lem a b ha hb = omega (
  arith,
  bit_and-kept 8 4 ((false, a) ∷ (true, b) ∷ []) (omega arith) (ha, (hb, tt)),
  bit_and-kept 8 4 ((true, a) ∷ (false, b) ∷ []) (omega arith) (ha, (hb, tt)),
)

-- A word's value, for any bytes: that of the low halves as digits.
pub four_to_u32_lem :
    (x0 x1 x2 x3 : ℕ)
    → All (λ x. x < 256) (x0 ∷ x1 ∷ x2 ∷ x3 ∷ [])
    → four_to_u32 (le_value (x0 ∷ x1 ∷ x2 ∷ x3 ∷ [])) ≡ digits_value 0 (x0 ∷ x1 ∷ x2 ∷ x3 ∷ [])
unfolding four_to_u32
four_to_u32_lem x0 x1 x2 x3 h =
    ap (λ z. (let y = z in bit_and y 0xff0000 / 65536 + bit_and y 0xff * 100))
      (stage_4_8 x0 x1 x2 x3 h)
    ∙ (stage_2_16 (x0 % 16 * 10 + x1 % 16) (x2 % 16 * 10 + x3 % 16)
        (omega arith, (omega arith, tt)))
    ∙ omega arith

pub eight_to_u64_lem :
    (x0 x1 x2 x3 x4 x5 x6 x7 : ℕ)
    → All (λ x. x < 256) (x0 ∷ x1 ∷ x2 ∷ x3 ∷ x4 ∷ x5 ∷ x6 ∷ x7 ∷ [])
    → eight_to_u64 (le_value (x0 ∷ x1 ∷ x2 ∷ x3 ∷ x4 ∷ x5 ∷ x6 ∷ x7 ∷ []))
      ≡ digits_value 0 (x0 ∷ x1 ∷ x2 ∷ x3 ∷ x4 ∷ x5 ∷ x6 ∷ x7 ∷ [])
unfolding eight_to_u64
eight_to_u64_lem x0 x1 x2 x3 x4 x5 x6 x7 h =
    ap
      (λ z.
        (let y = (let y = z in bit_and y 0xff000000ff0000 / 65536 + bit_and y 0xff000000ff * 100) in
          bit_and y 0xffff00000000 / 4294967296 + bit_and y 0xffff * 10000))
      (stage_8_8 x0 x1 x2 x3 x4 x5 x6 x7 h)
    ∙ ap (λ z. (let y = z in bit_and y 0xffff00000000 / 4294967296 + bit_and y 0xffff * 10000))
        (stage_4_16 (x0 % 16 * 10 + x1 % 16) (x2 % 16 * 10 + x3 % 16) (x4 % 16 * 10 + x5 % 16)
          (x6 % 16 * 10 + x7 % 16) (omega arith, (omega arith, (omega arith, (omega arith, tt)))))
    ∙ (stage_2_32 ((x0 % 16 * 10 + x1 % 16) % 256 * 100 + (x2 % 16 * 10 + x3 % 16) % 256)
        ((x4 % 16 * 10 + x5 % 16) % 256 * 100 + (x6 % 16 * 10 + x7 % 16) % 256)
        (omega arith, (omega arith, tt)))
    ∙ omega arith

pub sixteen_to_u128_lem :
    (x0 x1 x2 x3 x4 x5 x6 x7 x8 x9 x10 x11 x12 x13 x14 x15 : ℕ)
    → All
        (λ x. x < 256)
        (x0 ∷ x1 ∷ x2 ∷ x3 ∷ x4 ∷ x5 ∷ x6 ∷ x7 ∷ x8 ∷ x9 ∷ x10 ∷ x11 ∷ x12 ∷ x13 ∷ x14 ∷ x15 ∷ [])
    → sixteen_to_u128 (
        le_value (
          x0 ∷ x1 ∷ x2 ∷ x3 ∷ x4 ∷ x5 ∷ x6 ∷ x7 ∷ x8 ∷ x9 ∷ x10 ∷ x11 ∷ x12 ∷ x13 ∷ x14 ∷ x15 ∷ []))
      ≡ digits_value 0
          (x0 ∷ x1 ∷ x2 ∷ x3 ∷ x4 ∷ x5 ∷ x6 ∷ x7 ∷ x8 ∷ x9 ∷ x10 ∷ x11 ∷ x12 ∷ x13 ∷ x14 ∷ x15 ∷ [])
unfolding sixteen_to_u128
sixteen_to_u128_lem x0 x1 x2 x3 x4 x5 x6 x7 x8 x9 x10 x11 x12 x13 x14 x15 h =
    ap
      (λ z.
        (let y =
            (let y =
                (let y = z in
                  bit_and y 0xff000000ff000000ff000000ff0000 / 65536
                  + bit_and y 0xff000000ff000000ff000000ff * 100) in
              bit_and y 0xffff000000000000ffff00000000 / 4294967296
              + bit_and y 0xffff000000000000ffff * 10000) in
          bit_and y 0xffffffff0000000000000000 / 18446744073709551616
          + bit_and y 0xffffffff * 100000000))
      (stage_16_8 x0 x1 x2 x3 x4 x5 x6 x7 x8 x9 x10 x11 x12 x13 x14 x15 h)
    ∙ ap
        (λ z.
          (let y =
              (let y = z in
                bit_and y 0xffff000000000000ffff00000000 / 4294967296
                + bit_and y 0xffff000000000000ffff * 10000) in
            bit_and y 0xffffffff0000000000000000 / 18446744073709551616
            + bit_and y 0xffffffff * 100000000))
        (stage_8_16 (x0 % 16 * 10 + x1 % 16) (x2 % 16 * 10 + x3 % 16) (x4 % 16 * 10 + x5 % 16)
          (x6 % 16 * 10 + x7 % 16) (x8 % 16 * 10 + x9 % 16) (x10 % 16 * 10 + x11 % 16)
          (x12 % 16 * 10 + x13 % 16) (x14 % 16 * 10 + x15 % 16)
          (
            omega arith,
            (
              omega arith,
              (
                omega arith,
                (omega arith, (omega arith, (omega arith, (omega arith, (omega arith, tt))))),
              ),
            ),
          ))
    ∙ ap
        (λ z.
          (let y = z in
            bit_and y 0xffffffff0000000000000000 / 18446744073709551616
            + bit_and y 0xffffffff * 100000000))
        (stage_4_32 ((x0 % 16 * 10 + x1 % 16) % 256 * 100 + (x2 % 16 * 10 + x3 % 16) % 256)
          ((x4 % 16 * 10 + x5 % 16) % 256 * 100 + (x6 % 16 * 10 + x7 % 16) % 256)
          ((x8 % 16 * 10 + x9 % 16) % 256 * 100 + (x10 % 16 * 10 + x11 % 16) % 256)
          ((x12 % 16 * 10 + x13 % 16) % 256 * 100 + (x14 % 16 * 10 + x15 % 16) % 256)
          (omega arith, (omega arith, (omega arith, (omega arith, tt)))))
    ∙ (stage_2_64
        (((x0 % 16 * 10 + x1 % 16) % 256 * 100 + (x2 % 16 * 10 + x3 % 16) % 256) % 65536 * 10000
          + ((x4 % 16 * 10 + x5 % 16) % 256 * 100 + (x6 % 16 * 10 + x7 % 16) % 256) % 65536)
        (((x8 % 16 * 10 + x9 % 16) % 256 * 100 + (x10 % 16 * 10 + x11 % 16) % 256) % 65536 * 10000
          + ((x12 % 16 * 10 + x13 % 16) % 256 * 100 + (x14 % 16 * 10 + x15 % 16) % 256) % 65536)
        (omega arith, (omega arith, tt)))
    ∙ omega arith
