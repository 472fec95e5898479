-- ===== src/Fix/TagValue/Digits.antt =====
-- `parse_u64` against the positional value of a decimal numeral, and a printer for it.
use jeed.Base.{ℕ, zero, suc, ◌+◌, ◌-◌, ◌*◌, ◌%◌, ◌^◌, ◌≤◌, ◌<◌, ◌≡◌, refl, sym, ◌∙◌, ap, arith}
use jeed.Base.{List, [], ◌∷◌, Option, some, none, Bool, true, false, ◌&&◌, ◌||◌, inl, inr}
use jeed.Base.{ltb, leb, ◌==◌, if◌then◌else◌, lt→ltb, le→ltb, length, all, All, Bool-cases}
use jeed.Fix.TagValue.{digit_of, parse_digits, parse_u64}
use native.Mathlib.Nat.{pow-suc, pow-le-pow_right, mul-le-mul_left, mul-le-mul_right}

abbrev pub IsByte : ℕ → Type 0
IsByte b = b < 256

abbrev pub is_digit : ℕ → Bool
is_digit b = leb b'0' b && leb b b'9'

-- The number that a row of digits stands for, the first digit weighing most.
abbrev pub decimal_value : List ℕ → ℕ
decimal_value [] = 0
decimal_value (b ∷ bs) = (b - b'0') * 10 ^ length bs + decimal_value bs

pub pow_pos : (n : ℕ) → 1 ≤ 10 ^ n
pow_pos zero = omega arith
pow_pos (suc n) = rw pow-suc (omega (arith, pow_pos n))

digit_of_digit : (b : ℕ) → is_digit b ≡ true → (digit_of b ≡ b - b'0') × (digit_of b ≤ 9)
digit_of_digit b h = ground arith

digit_of_other : (b : ℕ) → IsByte b → is_digit b ≡ false → 9 < digit_of b
digit_of_other b hb h = ground arith

-- A step of the loop stays within nineteen digits.
room_step :
    (v d p : ℕ)
    → d ≤ 9
    → 1 ≤ p
    → (v + 1) * (10 * p) ≤ 10 ^ 19
    → ((v * 10 + d + 1) * p ≤ 10 ^ 19) × ((v * 10 + d) % 2 ^ 64 ≡ v * 10 + d)
room_step v d p hd hp h = (fits, omega (arith, fits, mul-le-mul_left (v * 10 + d + 1) hp))
  where
    fits : (v * 10 + d + 1) * p ≤ 10 ^ 19
    fits = omega (arith, mul-le-mul_right p hd)

abbrev numeral_at : ℕ → List ℕ → Option ℕ
numeral_at v bs = if all is_digit bs then some (v * 10 ^ length bs + decimal_value bs) else none

pub ten_pow : (n : ℕ) → 10 ^ suc n ≡ 10 * 10 ^ n
ten_pow n = rw pow-suc (omega arith)

ten_pow_le : (n : ℕ) → n ≤ 19 → 1 * 10 ^ n ≤ 10 ^ 19
ten_pow_le n h = omega (arith, pow-le-pow_right {n = 10} (omega arith) h)

numeral_at-cons :
    (v b : ℕ) (bs : List ℕ)
    → is_digit b ≡ true
    → numeral_at v (b ∷ bs) ≡ numeral_at (v * 10 + (b - b'0')) bs
numeral_at-cons v b bs e = rw e (
    ap (λ n. if all is_digit bs then some n else none)
      (omega (arith, ap (λ (t : ℕ). v * t) (ten_pow (length bs)))))

parse_digits_lem :
    (v : ℕ) (bs : List ℕ)
    → All IsByte bs
    → (v + 1) * 10 ^ length bs ≤ 10 ^ 19
    → parse_digits v bs ≡ numeral_at v bs
unfolding parse_digits
parse_digits_lem v [] hb h = ap some (omega arith)
parse_digits_lem v (b ∷ bs) hb h = elim (Bool-cases (is_digit b)) [
  | inl e ↦
      let (same, small) = digit_of_digit b e in
      let (fits, whole) =
        room_step v (digit_of b) (10 ^ length bs) small (pow_pos (length bs)) wider in
      rw (le→ltb _ _ small, whole)
        (parse_digits_lem (v * 10 + digit_of b) bs hb.1 fits
          ∙ ap (λ d. numeral_at (v * 10 + d) bs) same
          ∙ sym (numeral_at-cons v b bs e))
  | inr e ↦ rw (lt→ltb _ _ (digit_of_other b hb.0 e), e) refl
]
  where
    wider : (v + 1) * (10 * 10 ^ length bs) ≤ 10 ^ 19
    wider = rw (← ten_pow (length bs)) h

-- On every slice of bytes `parse_u64` is decided by length and digits alone: it accepts exactly 1 to
-- 19 ASCII digits, and then gives their positional value.
pub parse_u64_lem :
    (bs : List ℕ)
    → All IsByte bs
    → parse_u64 bs ≡ (
        if length bs == 0 || ltb 19 (length bs)
        then none
        else (if all is_digit bs then some (decimal_value bs) else none))
unfolding parse_u64
parse_u64_lem bs hb = ground (arith, parse_digits_lem 0 bs hb, ten_pow_le (length bs))
