-- ===== src/Fix/Decimal/Exact.antt =====
-- `parse_scaled_decimal` is exact: the digits' value, in units of the scale's last place.
use jeed.Base.{ℕ, zero, suc, ◌+◌, ◌-◌, ◌*◌, ◌^◌, ◌≤◌, ◌<◌, ◌≡◌, ◌∙◌, ap, ap₂, arith}
use jeed.Base.{List, [], ◌∷◌, ◌++◌, Option, some, none, Bool, true, false, ltb, lt→ltb, length, All}
use jeed.Base.{append-nil, position-none, position_append, take_append, drop_append_at, inl, inr}
use jeed.Base.{ok, err, all, ◌&&◌, Bool-cases, ◌==◌, if◌then◌else◌, take, drop, refl}
use native.Mathlib.Nat.{mul-le-mul_left}
use jeed.Fix.TagValue.{digit_of}
use jeed.Fix.TagValue.Digits.{is_digit, decimal_value, pow_pos, ten_pow}
use jeed.Fix.Decimal.{int_digits, frac_digits, pad_places, is_point}
use jeed.Fix.Decimal.{push_digit, precision, split_point, scale_parts, signed}
use jeed.Fix.Decimal.{scale_digits, parse_scaled_decimal, is_minus}
use jeed.Wire.Types.{Scale, decimals}

abbrev pub IsDigit : ℕ → Type 0
IsDigit b = is_digit b ≡ true

-- One digit more, where the value fits.
push_digit_lem :
    (v b : ℕ)
    → IsDigit b
    → v * 10 + (b - b'0') < 2 ^ 63
    → (ltb 9 (digit_of b) ≡ false) × (push_digit v (digit_of b) ≡ some (v * 10 + (b - b'0')))
push_digit_lem v b h small = ground arith

-- The value after one digit leaves the rest as much room.
room_step :
    (v d p q : ℕ)
    → 1 ≤ p
    → v * (10 * p) + (d * p + q) < 2 ^ 63
    → ((v * 10 + d) * p + q < 2 ^ 63) × (v * 10 + d < 2 ^ 63)
room_step v d p q hp h = (omega (arith, h), omega (arith, h, mul-le-mul_left (v * 10 + d) hp))

-- A digit in front of others.
value_step :
    (v b : ℕ) (bs : List ℕ)
    → v * 10 ^ length (b ∷ bs) + decimal_value (b ∷ bs)
      ≡ v * (10 * 10 ^ length bs) + ((b - b'0') * 10 ^ length bs + decimal_value bs)
value_step v b bs = omega (arith, ap (λ (t : ℕ). v * t) (ten_pow (length bs)))

module _ (v b : ℕ) (bs : List ℕ)
    (fits : v * 10 ^ length (b ∷ bs) + decimal_value (b ∷ bs) < 2 ^ 63) where
  digit_room :
      ((v * 10 + (b - b'0')) * 10 ^ length bs + decimal_value bs < 2 ^ 63)
      × (v * 10 + (b - b'0') < 2 ^ 63)
  digit_room =
      room_step v (b - b'0') (10 ^ length bs) (decimal_value bs) (pow_pos (length bs))
        (omega (arith, fits, value_step v b bs))

  same_value :
      (v * 10 + (b - b'0')) * 10 ^ length bs + decimal_value bs
      ≡ v * 10 ^ length (b ∷ bs) + decimal_value (b ∷ bs)
  same_value = omega (arith, value_step v b bs)

int_digits_lem :
    (v : ℕ) (bs : List ℕ)
    → All IsDigit bs
    → v * 10 ^ length bs + decimal_value bs < 2 ^ 63
    → int_digits v bs ≡ ok (v * 10 ^ length bs + decimal_value bs)
unfolding int_digits
int_digits_lem v [] h fits = ap ok (omega arith)
int_digits_lem v (b ∷ bs) h fits =
    let (digit, pushed) = push_digit_lem v b h.0 (digit_room v b bs fits).1 in
    rw (digit, pushed)
      (int_digits_lem (v * 10 + (b - b'0')) bs h.1 (digit_room v b bs fits).0
        ∙ ap ok (same_value v b bs fits))

pad_places_lem : (n v : ℕ) → v * 10 ^ n < 2 ^ 63 → pad_places n v ≡ ok (v * 10 ^ n)
unfolding pad_places
pad_places_lem zero v fits = ap ok (omega arith)
pad_places_lem (suc n) v fits =
    rw (lt→ltb (v * 10) (2 ^ 63) small)
      (pad_places_lem n (v * 10) wide ∙ ap ok (omega (arith, ap (λ (t : ℕ). v * t) (ten_pow n))))
  where
    wide : v * 10 * 10 ^ n < 2 ^ 63
    wide = omega (arith, fits, ap (λ (t : ℕ). v * t) (ten_pow n))

    small : v * 10 < 2 ^ 63
    small = omega (arith, wide, mul-le-mul_left (v * 10) (pow_pos n))

-- Digits beyond the scale: dropped if all are zero.
abbrev pub all_zero : List ℕ → Bool
all_zero bs = all (λ b. b == b'0') bs

frac_rest :
    (places v used : ℕ) (bs : List ℕ)
    → All IsDigit bs
    → places ≤ used
    → frac_digits places v used bs ≡ (if all_zero bs then ok (v, used) else err precision)
unfolding frac_digits
frac_rest places v used [] h full = refl
frac_rest places v used (b ∷ bs) h full = ground (arith, frac_rest places v used bs h.1 full, h.0)

-- The `n` digits that the scale still keeps, and the others.
frac_split :
    (n places v used : ℕ) (bs : List ℕ)
    → All IsDigit bs
    → places ≡ used + n
    → v * 10 ^ length (take n bs) + decimal_value (take n bs) < 2 ^ 63
    → frac_digits places v used bs ≡ (
        if all_zero (drop n bs)
        then ok (v * 10 ^ length (take n bs) + decimal_value (take n bs), used + length (take n bs))
        else err precision)
unfolding frac_digits
frac_split zero places v used bs h room fits =
    frac_rest places v used bs h (omega (arith, room))
    ∙ ap₂ (λ a b. if all_zero bs then ok (a, b) else err precision) (omega arith) (omega arith)
frac_split (suc n) places v used [] h room fits = ap₂ (λ a b. ok (a, b)) (omega arith) (omega arith)
frac_split (suc n) places v used (b ∷ bs) h room fits =
    let (digit, pushed) = push_digit_lem v b h.0 (digit_room v b (take n bs) fits).1 in
    rw (digit, pushed, lt→ltb used places (omega (arith, room)))
      (frac_split n places (v * 10 + (b - b'0')) (used + 1) bs h.1 (omega (arith, room))
          (digit_room v b (take n bs) fits).0
        ∙ ap₂ (λ a b. if all_zero (drop n bs) then ok (a, b) else err precision)
            (same_value v b (take n bs) fits) (omega arith))

-- Digits, and no point among them.
digits-no_point : (bs : List ℕ) → All IsDigit bs → All (λ b. is_point b ≡ false) bs
digits-no_point [] h = tt
digits-no_point (b ∷ bs) h = (digit_no_point b h.0, digits-no_point bs h.1)
  where
    digit_no_point : (b : ℕ) → IsDigit b → is_point b ≡ false
    digit_no_point b h = ground arith

-- The value of digits that stand on both sides of a point, in units of the scale's last place.
abbrev pub scaled_value : ℕ → List ℕ → List ℕ → ℕ
scaled_value places int_part frac_part =
    (decimal_value int_part * 10 ^ length frac_part + decimal_value frac_part)
    * 10 ^ (places - length frac_part)

-- A point and the digits behind it, or neither.
abbrev pub point_text : Option (List ℕ) → List ℕ
point_text none = []
point_text (some frac) = b'.' ∷ frac

abbrev pub frac_of : Option (List ℕ) → List ℕ
frac_of none = []
frac_of (some frac) = frac

abbrev pub sign_text : Bool → List ℕ
sign_text true = b'-' ∷ []
sign_text false = []

split_point-text :
    (int_part : List ℕ) (frac : Option (List ℕ))
    → All IsDigit int_part
    → split_point (int_part ++ point_text frac) ≡ (int_part, frac_of frac)
unfolding split_point
split_point-text int_part none h =
    rw append-nil
      (rw (split_point, position-none is_point int_part (digits-no_point int_part h)) refl)
split_point-text int_part (some frac) h =
    rw (split_point, position_append is_point int_part frac b'.' (digits-no_point int_part h) refl)
      (ap₂ (λ a b. (a, b)) (take_append int_part (b'.' ∷ frac))
        (drop_append_at int_part (b'.' ∷ frac) (length int_part + 1) 1 refl))

le_times : (a p : ℕ) → 1 ≤ p → a ≤ a * p
le_times a p h = omega (arith, mul-le-mul_left a h)

some_length : (a b : ℕ) → 1 ≤ a + b → (a == 0 && b == 0) ≡ false
some_length a b h = ground arith

module _ (negative : Bool) (places : ℕ) (int_part frac : List ℕ) (int_digit : All IsDigit int_part)
    (frac_digit : All IsDigit frac) (some_digit : 1 ≤ length int_part + length frac)
    (fits : scaled_value places int_part (take places frac) < 2 ^ 63) where
  kept_value : ℕ
  kept_value =
      decimal_value int_part * 10 ^ length (take places frac) + decimal_value (take places frac)

  kept_fits : kept_value < 2 ^ 63
  unfolding kept_value
  kept_fits =
      omega (arith, fits, le_times kept_value _ (pow_pos (places - length (take places frac))))

  int_part_fits : decimal_value int_part < 2 ^ 63
  unfolding kept_value
  int_part_fits =
      omega (
        arith,
        kept_fits,
        le_times (decimal_value int_part) _ (pow_pos (length (take places frac))),
      )

  int_part_lem : int_digits 0 int_part ≡ ok (decimal_value int_part)
  int_part_lem =
      int_digits_lem 0 int_part int_digit (omega (arith, int_part_fits)) ∙ ap ok (omega arith)

  frac_part_lem : frac_digits places (decimal_value int_part) 0 frac ≡ (
      if all_zero (drop places frac)
      then ok (kept_value, length (take places frac))
      else err precision)
  unfolding kept_value
  frac_part_lem =
      frac_split places places (decimal_value int_part) 0 frac frac_digit (omega arith) kept_fits
      ∙ ap (λ k. if all_zero (drop places frac) then ok (kept_value, k) else err precision)
          (omega arith)

  scale_parts_lem : scale_parts negative places (int_part, frac) ≡ (
      if all_zero (drop places frac)
      then ok (signed negative (scaled_value places int_part (take places frac)))
      else err precision)
  unfolding scale_parts
  scale_parts_lem =
      rw (some_length (length int_part) (length frac) some_digit, int_part_lem, frac_part_lem)
        (elim (Bool-cases (all_zero (drop places frac))) [ inl z ↦ rw (z, padded) | inr z ↦ rw z ])
    where
      padded :
          pad_places (places - length (take places frac)) kept_value
          ≡ ok (scaled_value places int_part (take places frac))
      padded =
          unfold kept_value in pad_places_lem (places - length (take places frac)) kept_value fits

scale_digits-text :
    (negative : Bool) (places : ℕ) (int_part : List ℕ) (frac : Option (List ℕ))
    → All IsDigit int_part
    → 1 ≤ length int_part + length (frac_of frac)
    → scale_digits negative places (int_part ++ point_text frac)
      ≡ scale_parts negative places (int_part, frac_of frac)
unfolding scale_digits
scale_digits-text negative places [] none h some_digit = absurd (omega (arith, some_digit))
scale_digits-text negative places [] (some frac) h some_digit =
    ap (scale_parts negative places) (split_point-text [] (some frac) tt)
scale_digits-text negative places (b ∷ bs) frac h some_digit =
    ap (scale_parts negative places) (split_point-text (b ∷ bs) frac h)

digit_no_minus : (b : ℕ) → IsDigit b → is_minus b ≡ false
digit_no_minus b h = ground arith

parse_scaled_decimal-sign :
    (negative : Bool) (scale : Scale) (int_part : List ℕ) (frac : Option (List ℕ))
    → All IsDigit int_part
    → 1 ≤ length int_part + length (frac_of frac)
    → parse_scaled_decimal (sign_text negative ++ (int_part ++ point_text frac)) scale
      ≡ scale_digits negative (decimals scale) (int_part ++ point_text frac)
unfolding parse_scaled_decimal
parse_scaled_decimal-sign true scale int_part frac h some_digit = refl
parse_scaled_decimal-sign false scale [] none h some_digit = absurd (omega (arith, some_digit))
parse_scaled_decimal-sign false scale [] (some frac) h some_digit = refl
parse_scaled_decimal-sign false scale (b ∷ bs) frac h some_digit = rw (digit_no_minus b h.0)

-- A decimal, with or without a sign, with or without a point, whose kept digits fit an `i64`: the digits
-- that the scale keeps are read exactly, in units of the scale's last place, if all digits beyond them
-- are zero; if one is not, the answer is `precision`.
pub parse_scaled_decimal_lem :
    (negative : Bool) (scale : Scale) (int_part : List ℕ) (frac : Option (List ℕ))
    → All IsDigit int_part
    → All IsDigit (frac_of frac)
    → 1 ≤ length int_part + length (frac_of frac)
    → scaled_value (decimals scale) int_part (take (decimals scale) (frac_of frac)) < 2 ^ 63
    → parse_scaled_decimal (sign_text negative ++ (int_part ++ point_text frac)) scale ≡ (
        if all_zero (drop (decimals scale) (frac_of frac))
        then ok (
            signed negative
              (scaled_value (decimals scale) int_part (take (decimals scale) (frac_of frac))))
        else err precision)
parse_scaled_decimal_lem negative scale int_part frac hi hf some_digit fits =
    parse_scaled_decimal-sign negative scale int_part frac hi some_digit
    ∙ scale_digits-text negative (decimals scale) int_part frac hi some_digit
    ∙ scale_parts_lem negative (decimals scale) int_part (frac_of frac) hi hf some_digit fits
