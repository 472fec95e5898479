-- ===== src/Tests/Time.antt =====
-- Calendar days, decimals and byte codes.
use jeed.Base.{[], ◌∷◌, ◌++◌, some, true, ok, arith, refl, ◌≡◌}
use jeed.Base.Ints.{pos, negate}
use jeed.Fix.Time.Calendar.{days, nth_day, days_from_civil-nth_day}
use jeed.Fix.Time.Civil.{civil_from_days, civil_from_days-nth_day}
use jeed.Fix.Decimal.{parse_scaled_decimal}
use jeed.Wire.Types.{s2}
use jeed.Fix.Decimal.Exact.{sign_text, point_text, parse_scaled_decimal_lem}

days_from_civil-nth_day_example : days (nth_day 59) ≡ pos 59
days_from_civil-nth_day_example = days_from_civil-nth_day 59 (omega arith)

civil_from_days-nth_day_example : civil_from_days (pos 59) ≡ (pos 1970, 3, 1)
unfolding nth_day
civil_from_days-nth_day_example = civil_from_days-nth_day 59 (omega arith)

-- `-12.3400` at two places
parse_scaled_decimal_lem_example :
    parse_scaled_decimal
      (sign_text true ++ ((b'1' ∷ b'2' ∷ []) ++ point_text (some (b'3' ∷ b'4' ∷ b'0' ∷ b'0' ∷ []))))
      s2
    ≡ ok (negate 1_234)
parse_scaled_decimal_lem_example =
    parse_scaled_decimal_lem true s2 (b'1' ∷ b'2' ∷ []) (some (b'3' ∷ b'4' ∷ b'0' ∷ b'0' ∷ []))
      (refl, (refl, tt)) (refl, (refl, (refl, (refl, tt)))) (omega arith) (omega arith)
