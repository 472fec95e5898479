-- ===== src/Convert/Unsigned/Wraps.antt =====
-- Twenty digits: the product of the first sixteen wraps, and only the sum is checked.
use jeed.Base.{ℕ, ◌+◌, ◌*◌, ◌%◌, ◌^◌, ◌<◌, ◌≡◌, refl, sym, ap, ◌∙◌, arith, inl, inr, Bool-cases}
use jeed.Base.{List, length, take, drop, All, all, true, ltb, ltb→lt, if◌then◌else◌}
use jeed.Base.{ok, err, length-drop}
use jeed.Base.Bytes.{IsByte}
use jeed.Fix.TagValue.Digits.{is_digit, decimal_value}
use jeed.Convert.Error.{overflow}
use jeed.Convert.Check.Borrows.{u32, u128}
use jeed.Convert.Unsigned.{twenty, short_core, unsigned_decimal_core, parse_decimal, signed_range}
use jeed.Convert.Unsigned.Words.{word-Converts, front, back, decimal_value-cut}
use jeed.Convert.Unsigned.Exact.{take_lt}
use native.Mathlib.Nat.{mod-add-mod, mod-eq_of_lt}

-- A text of twenty digits is parsed as the number that it writes, less a multiple of 2^64 that nothing
-- tells, unless adding the last four digits to the wrapped product overflows, which is an error.
pub parse_decimal-twenty :
    (u : List ℕ)
    → All IsByte u
    → length u ≡ 20
    → all is_digit u ≡ true
    → parse_decimal u ≡ (
        if ltb (decimal_value (take 16 u) * 10000 % 2 ^ 64 + decimal_value (drop 16 u)) (2 ^ 64)
        then ok (decimal_value u % 2 ^ 64)
        else err overflow)
unfolding parse_decimal unsigned_decimal_core short_core twenty signed_range
parse_decimal-twenty u h e d =
    rw
      (
        e,
        front 16 _ (word-Converts u128) 20 u h e (omega arith) d,
        back 4 _ (word-Converts u32) 16 u h e d,
        mod-eq_of_lt {n = decimal_value (take 16 u)} {m = 2 ^ 64}
            (omega (arith, take_lt 20 u h e d 16 (omega arith))),
      )
      (elim (Bool-cases (ltb (high * 10000 % 2 ^ 64 + low) (2 ^ 64))) [
        | inl fits ↦ rw fits (ap ok (same (ltb→lt _ _ fits)))
        | inr over ↦ rw over refl
      ])
  where
    high : ℕ
    high = decimal_value (take 16 u)

    low : ℕ
    low = decimal_value (drop 16 u)

    same :
        high * 10000 % 2 ^ 64 + low < 2 ^ 64
        → high * 10000 % 2 ^ 64 + low ≡ decimal_value u % 2 ^ 64
    same fits =
        sym (mod-eq_of_lt fits)
        ∙ mod-add-mod (high * 10000) (2 ^ 64) low
        ∙ ap (λ v. v % 2 ^ 64) (decimal_value-cut 16 4 u (omega (arith, length-drop 16 u, e)))
