-- ===== src/Fix/TagValue/Numeral.antt =====
-- Printing a number in decimal, the inverse of `parse_u64`. A peer writes tags, lengths and
-- sequence numbers so.
use jeed.Base.{ℕ, zero, suc, ◌+◌, ◌-◌, ◌*◌, ◌/◌, ◌%◌, ◌^◌, ◌≤◌, ◌<◌, ◌≡◌, ap, ◌∙◌, arith}
use jeed.Base.{List, [], ◌∷◌, ◌++◌, some, true}
use jeed.Base.{ltb, if◌then◌else◌, lt→ltb, le→ltb, length, length-append, all, All}
use jeed.Fix.TagValue.{parse_u64}
use jeed.Fix.TagValue.Digits.{IsByte, is_digit, decimal_value, ten_pow, parse_u64_lem}
use mathlib.Core.Path.{subst}
use native.Mathlib.Decide.{dec_lt}

unfoldable pub print_digits : ℕ → ℕ → List ℕ
print_digits zero n = []
print_digits (suc k) n =
    let front = print_digits k (n / 10) in
    if ltb n 10 then (b'0' + n) ∷ [] else front ++ ((b'0' + n % 10) ∷ [])

-- The decimal numeral of a number below 10 ^ 20.
unfoldable pub numeral : ℕ → List ℕ
unfolding print_digits
numeral n = print_digits 20 n

-- A non-empty row of at most `k` digits that stands for `n`.
pub record IsNumeral (k n : ℕ) (bs : List ℕ) : Type 0 where
  pub bytes : All IsByte bs
  pub digits : all is_digit bs ≡ true
  pub some_digit : 1 ≤ length bs
  pub short : length bs ≤ k
  pub value : decimal_value bs ≡ n

decimal_value-append :
    (bs : List ℕ) (b : ℕ) → decimal_value (bs ++ (b ∷ [])) ≡ 10 * decimal_value bs + (b - b'0')
decimal_value-append [] b = omega arith
decimal_value-append (c ∷ bs) b = omega (
  arith,
  decimal_value-append bs b,
  ap (λ (k : ℕ). (c - b'0') * 10 ^ k) (length-append bs (b ∷ [])),
  ap (λ (t : ℕ). (c - b'0') * t) (ten_pow (length bs)),
  ap (λ (k : ℕ). (c - b'0') * 10 ^ k) (let e : length bs + 1 ≡ suc (length bs) = omega arith in e),
)

all-append_one :
    (bs : List ℕ) (b : ℕ)
    → all is_digit bs ≡ true
    → is_digit b ≡ true
    → all is_digit (bs ++ (b ∷ [])) ≡ true
all-append_one [] b h e = rw e
all-append_one (c ∷ bs) b h e = ground (arith, all-append_one bs b)

bytes-append_one : (bs : List ℕ) (b : ℕ) → All IsByte bs → IsByte b → All IsByte (bs ++ (b ∷ []))
bytes-append_one [] b h e = (e, tt)
bytes-append_one (c ∷ bs) b h e = (h.0, bytes-append_one bs b h.1 e)

append_one-IsNumeral :
    (k n d : ℕ) (bs : List ℕ)
    → d < 10
    → IsNumeral k n bs
    → IsNumeral (suc k) (10 * n + d) (bs ++ ((b'0' + d) ∷ []))
append_one-IsNumeral k n d bs hd v = record {
  bytes = bytes-append_one bs (b'0' + d) v.bytes (omega arith);
  digits = all-append_one bs (b'0' + d) v.digits (ground arith);
  some_digit = omega (arith, length-append bs ((b'0' + d) ∷ []));
  short = omega (arith, length-append bs ((b'0' + d) ∷ []));
  value = omega (arith, decimal_value-append bs (b'0' + d));
}

print_digits-IsNumeral :
    (f k n : ℕ) → n < 10 ^ suc k → suc k ≤ f → IsNumeral (suc k) n (print_digits f n)
unfolding print_digits
print_digits-IsNumeral zero k n h p = absurd (omega arith)
print_digits-IsNumeral (suc f) zero n h p = rw (lt→ltb n 10 (omega arith)) (record {
  bytes = omega arith;
  digits = ground arith;
  some_digit = omega arith;
  short = omega arith;
  value = omega arith;
})
print_digits-IsNumeral (suc f) (suc k) n h p = elim (dec_lt n 10) [
  | yes lt ↦ rw (lt→ltb n 10 lt) (record {
    bytes = omega arith;
    digits = ground arith;
    some_digit = omega arith;
    short = omega arith;
    value = omega arith;
  })
  | no ge ↦ rw (le→ltb n 10 (omega arith)) (
      subst (λ m. IsNumeral (suc (suc k)) m (print_digits f (n / 10) ++ ((b'0' + n % 10) ∷ [])))
        (omega arith)
        (append_one-IsNumeral (suc k) (n / 10) (n % 10) (print_digits f (n / 10)) (omega arith)
          (print_digits-IsNumeral f k (n / 10) (omega (arith, ten_pow (suc k))) (omega arith))))
]

-- A number below 10 ^ (k + 1) prints as at most k + 1 digits, of its own value.
pub numeral-IsNumeral : (k n : ℕ) → n < 10 ^ suc k → suc k ≤ 20 → IsNumeral (suc k) n (numeral n)
unfolding numeral
numeral-IsNumeral k n h p = print_digits-IsNumeral 20 k n h p

pub parse_u64-IsNumeral :
    (k n : ℕ) (bs : List ℕ) → k ≤ 19 → IsNumeral k n bs → parse_u64 bs ≡ some n
parse_u64-IsNumeral k n bs h v = parse_u64_lem bs v.bytes ∙ ground arith

-- `parse_u64` reads back every number below 10 ^ 19 from its decimal numeral.
pub parse_u64-numeral : (n : ℕ) → n < 10 ^ 19 → parse_u64 (numeral n) ≡ some n
parse_u64-numeral n h =
    parse_u64-IsNumeral 19 n (numeral n) (omega arith) (numeral-IsNumeral 18 n h (omega arith))
