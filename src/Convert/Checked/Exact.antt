-- ===== src/Convert/Checked/Exact.antt =====
-- What the checked conversions answer, on every text as long as the word.
use jeed.Base.{ℕ, zero, suc, ◌+◌, ◌-◌, ◌*◌, ◌%◌, ◌≡◌, refl, sym, ap, subst, ◌∙◌, arith, true, ◌&&◌}
use jeed.Base.{List, [], ◌∷◌, ◌++◌, length, drop, get_or, replicate, All, all, if◌then◌else◌}
use jeed.Base.{Result, ok, err, both_true, ◌^◌}
use jeed.Base.Bytes.{IsByte}
use jeed.Convert.Error.{ParseErr, invalid_digit}
use jeed.Convert.Check.Borrows.{Width, u16, u32, u64, u128, bytes_in, check_decimal_bit, le_value}
use jeed.Fix.TagValue.Digits.{is_digit, decimal_value, ten_pow}
use jeed.Convert.Check.Borrows.{is_near_digit, check_decimal_bit_lem}
use jeed.Convert.Bcd.{two_to_u16_decimal, four_to_u32, eight_to_u64, sixteen_to_u128}
use jeed.Convert.Bcd.Value.{digits_value, two_to_u16_decimal_lem, four_to_u32_lem, eight_to_u64_lem}
use jeed.Convert.Bcd.Value.{sixteen_to_u128_lem}
use jeed.Convert.Checked.{le_bytes_to_u16, le_bytes_to_u32, le_bytes_to_u64, le_bytes_to_u128}
use jeed.Convert.Checked.{checked_conversion_u16, checked_conversion_u32, checked_conversion_u64}
use jeed.Convert.Checked.{checked_conversion_u128, right_aligned}

-- A list of a known length, element by element.
abbrev spread : ℕ → List ℕ → List ℕ
spread zero bs = []
spread (suc n) bs = get_or bs 0 0 ∷ spread n (drop 1 bs)

spread_lem : (n : ℕ) (bs : List ℕ) → length bs ≡ n → spread n bs ≡ bs
spread_lem zero [] e = refl
spread_lem zero (b ∷ bs) e = absurd (omega arith)
spread_lem (suc n) [] e = absurd (omega arith)
spread_lem (suc n) (b ∷ bs) e = ap (λ r. b ∷ r) (spread_lem n bs (omega arith))

abbrev pub decimal : Width → ℕ → ℕ
decimal u16 = two_to_u16_decimal
decimal u32 = four_to_u32
decimal u64 = eight_to_u64
decimal u128 = sixteen_to_u128

spread_value :
    (w : Width) (bs : List ℕ)
    → All IsByte (spread (bytes_in w) bs)
    → decimal w (le_value (spread (bytes_in w) bs)) ≡ digits_value 0 (spread (bytes_in w) bs)
spread_value u16 bs h = two_to_u16_decimal_lem _ _ h.0 h.1.0
spread_value u32 bs h = four_to_u32_lem _ _ _ _ h
spread_value u64 bs h = eight_to_u64_lem _ _ _ _ _ _ _ _ h
spread_value u128 bs h = sixteen_to_u128_lem _ _ _ _ _ _ _ _ _ _ _ _ _ _ _ _ h

decimal_lem :
    (w : Width) (bs : List ℕ)
    → All IsByte bs
    → length bs ≡ bytes_in w
    → decimal w (le_value bs) ≡ digits_value 0 bs
decimal_lem w bs h e =
    let same = spread_lem (bytes_in w) bs e in
    subst (λ l. decimal w (le_value l) ≡ digits_value 0 l) same
      (spread_value w bs (subst (All IsByte) (sym same) h))

abbrev pub checked_conversion : Width → List ℕ → Result ParseErr ℕ
checked_conversion u16 = checked_conversion_u16
checked_conversion u32 = checked_conversion_u32
checked_conversion u64 = checked_conversion_u64
checked_conversion u128 = checked_conversion_u128

no_padding : (n : ℕ) (bs : List ℕ) → length bs ≡ n → right_aligned n bs ≡ le_value bs
no_padding n bs e = ap (λ k. le_value (replicate k 0 ++ bs)) none_left
  where
    none_left : n - length bs ≡ 0
    none_left = omega (arith, e)

checked_conversion-check :
    (w : Width) (bs : List ℕ)
    → length bs ≡ bytes_in w
    → checked_conversion w bs ≡ (
        if check_decimal_bit w (le_value bs)
        then ok (decimal w (le_value bs))
        else err invalid_digit)
unfolding checked_conversion_u16 checked_conversion_u32 checked_conversion_u64
    checked_conversion_u128 le_bytes_to_u16 le_bytes_to_u32 le_bytes_to_u64 le_bytes_to_u128
checked_conversion-check u16 bs e = rw (no_padding 2 bs e) refl
checked_conversion-check u32 bs e = rw (no_padding 4 bs e) refl
checked_conversion-check u64 bs e = rw (no_padding 8 bs e) refl
checked_conversion-check u128 bs e = rw (no_padding 16 bs e) refl

-- A text as long as the word is converted exactly if its first byte is a digit and each other byte is a
-- digit, `/` or `:`, and refused otherwise. The value is that of the low halves of its bytes as decimal
-- digits, which are 15 for `/` and 10 for `:`.
pub checked_conversion_lem :
    (w : Width) (b : ℕ) (bs : List ℕ)
    → All IsByte (b ∷ bs)
    → length (b ∷ bs) ≡ bytes_in w
    → checked_conversion w (b ∷ bs) ≡ (
        if is_digit b && all is_near_digit bs
        then ok (digits_value 0 (b ∷ bs))
        else err invalid_digit)
checked_conversion_lem w b bs h e =
    checked_conversion-check w (b ∷ bs) e
    ∙ rw (check_decimal_bit_lem w b bs h e, decimal_lem w (b ∷ bs) h e) refl

digits_value_lem :
    (acc : ℕ) (bs : List ℕ)
    → all is_digit bs ≡ true
    → digits_value acc bs ≡ acc * 10 ^ length bs + decimal_value bs
digits_value_lem acc [] h = omega arith
digits_value_lem acc (b ∷ bs) h =
    let (digit, others) = both_true _ _ h in
    digits_value_lem (acc * 10 + b % 16) bs others
    ∙ ap (λ v. (acc * 10 + v) * 10 ^ length bs + decimal_value bs) (low_half b digit)
    ∙ omega (arith, ap (λ t. acc * t) (ten_pow (length bs)))
  where
    low_half : (b : ℕ) → is_digit b ≡ true → b % 16 ≡ b - 48
    low_half b h = ground (arith, h)

digits_are_near : (bs : List ℕ) → all is_digit bs ≡ true → all is_near_digit bs ≡ true
digits_are_near [] h = refl
digits_are_near (b ∷ bs) h =
    let (digit, others) = both_true _ _ h in rw (near b digit) (digits_are_near bs others)
  where
    near : (b : ℕ) → is_digit b ≡ true → is_near_digit b ≡ true
    near b h = ground (arith, h)

-- A text of digits alone that is as long as the word is converted to the number that it writes.
pub checked_conversion-decimal_value :
    (w : Width) (b : ℕ) (bs : List ℕ)
    → All IsByte (b ∷ bs)
    → length (b ∷ bs) ≡ bytes_in w
    → all is_digit (b ∷ bs) ≡ true
    → checked_conversion w (b ∷ bs) ≡ ok (decimal_value (b ∷ bs))
checked_conversion-decimal_value w b bs h e digits =
    checked_conversion_lem w b bs h e
    ∙ rw (parts.0, digits_are_near bs parts.1, digits_value_lem 0 (b ∷ bs) digits)
        (ap ok (omega arith))
  where
    parts : (is_digit b ≡ true) × (all is_digit bs ≡ true)
    parts = both_true _ _ digits
