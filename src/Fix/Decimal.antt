-- ===== src/Fix/Decimal.antt =====
-- `parse_scaled_decimal` of crates/jeed-fix/src/tagvalue.rs: `[-]digits[.digits]` into an integer.
-- The value so far is an `i64` that is never negative, held as a number; the sign comes last.
pub mod Exact
use jeed.Base.{
  ℕ, zero, suc, ◌+◌, ◌-◌, ◌*◌, ◌^◌, List, [], ◌∷◌, Option, none, some, Bool, true, false,
}
use jeed.Base.{ltb, ◌==◌, if◌then◌else◌, length, take, drop, position, ok_or, ◌&&◌}
use jeed.Base.{Result, ok, err, ◌>>=◌}
use jeed.Base.Ints.{ℤ, pos, negate}
use jeed.Wire.Types.{Scale, decimals}
use jeed.Fix.TagValue.{digit_of}

pub data DecimalError : Type 0 where
  malformed precision : DecimalError

-- `Some` of what an `i64` can hold.
abbrev pub checked_i64 : ℕ → Option ℕ
checked_i64 n = if ltb n (2 ^ 63) then some n else none

-- `v.checked_mul(10).and_then(|x| x.checked_add(d))`
abbrev pub push_digit : ℕ → ℕ → Option ℕ
push_digit v d = elim (checked_i64 (v * 10)) [ none ↦ none | some x ↦ checked_i64 (x + d) ]

-- The loop over the digits before the point.
unfoldable pub int_digits : ℕ → List ℕ → Result DecimalError ℕ
int_digits v [] = ok v
int_digits v (b ∷ bs) =
    if ltb 9 (digit_of b)
    then err malformed
    else do v' ← ok_or (push_digit v (digit_of b)) malformed; int_digits v' bs

-- The loop over the digits after it; also how many of them the scale kept.
unfoldable pub frac_digits : ℕ → ℕ → ℕ → List ℕ → Result DecimalError (ℕ × ℕ)
frac_digits places v used [] = ok (v, used)
frac_digits places v used (b ∷ bs) =
    let skipped = frac_digits places v used bs in
    let kept =
      ok_or (push_digit v (digit_of b)) malformed >>= (λ v'. frac_digits places v' (used + 1) bs) in
    if ltb 9 (digit_of b)
    then err malformed
    else (if ltb used places then kept else (if digit_of b == 0 then skipped else err precision))

-- `for _ in used..decimals`
unfoldable pub pad_places : ℕ → ℕ → Result DecimalError ℕ
pad_places zero v = ok v
pad_places (suc n) v = do v' ← ok_or (checked_i64 (v * 10)) malformed; pad_places n v'

abbrev pub is_minus : ℕ → Bool
is_minus b = b == b'-'

abbrev pub is_point : ℕ → Bool
is_point b = b == b'.'

abbrev pub signed : Bool → ℕ → ℤ
signed true v = negate v
signed false v = pos v

-- What follows the sign, cut at the first point.
unfoldable pub split_point : List ℕ → List ℕ × List ℕ
split_point digits = elim (position is_point digits) [
  | none ↦ (digits, [])
  | some i ↦ (take i digits, drop (i + 1) digits)
]

unfoldable pub scale_parts : Bool → ℕ → List ℕ × List ℕ → Result DecimalError ℤ
unfolding int_digits frac_digits pad_places
scale_parts negative places (int_part, frac_part) =
    if length int_part == 0 && length frac_part == 0 then err malformed else do
      v ← int_digits 0 int_part
      vu ← frac_digits places v 0 frac_part
      w ← pad_places (places - vu.1) vu.0
      ok (signed negative w)

unfoldable pub scale_digits : Bool → ℕ → List ℕ → Result DecimalError ℤ
unfolding split_point scale_parts
scale_digits negative places [] = err malformed
scale_digits negative places (b ∷ bs) = scale_parts negative places (split_point (b ∷ bs))

unfoldable pub parse_scaled_decimal : List ℕ → Scale → Result DecimalError ℤ
unfolding scale_digits
parse_scaled_decimal [] scale = scale_digits false (decimals scale) []
parse_scaled_decimal (b ∷ bs) scale =
    if is_minus b
    then scale_digits true (decimals scale) bs
    else scale_digits false (decimals scale) (b ∷ bs)
