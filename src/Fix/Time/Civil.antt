-- ===== src/Fix/Time/Civil.antt =====
-- `civil_from_days` of crates/jeed-fix/src/recv/emit.rs, the way back from a day's number.
use jeed.Base.{ℕ, ◌+◌, ◌-◌, ◌*◌, ◌/◌, ◌%◌, ◌≤◌, ◌<◌, ◌≡◌, arith, leb, ltb, if◌then◌else◌}
use jeed.Base.{◌^◌, ap, ap₂, ◌∙◌, ◌⊎◌, inl, inr, sym, true, false, Bool, ◌≢◌, Bool-cases, subst}
use native.Mathlib.Decide.{ℕ_discrete}
use jeed.Base.Ints.{ℤ, pos, negsuc, minus, wrap_i64, wrap_i64-pos}
use jeed.Fix.Time.{day_of_year}
use jeed.Fix.Time.Calendar.{IsDate, is_leap, month_length, shifted_year, nth_day, nth_day-IsDate}
use jeed.Fix.Time.Calendar.{day_number, late_days, shifted_year_low, number, number-nth_day}

-- `yoe`, the year of an era, from the day of the era.
abbrev pub year_of_era : ℕ → ℕ
year_of_era doe = (doe - doe / 1_460 + doe / 36_524 - doe / 146_096) / 365

abbrev pub month_of : ℕ → ℕ
month_of mp = if ltb mp 10 then mp + 3 else mp - 9

-- From the day of the year, March 1st being 0, with the year that it belongs to less `back`.
abbrev pub civil_of_year : ℕ → ℕ → ℕ → ℤ × ℕ × ℕ
civil_of_year year back doy =
    let mp = (5 * doy + 2) / 153 in
    (
      minus (if leb (month_of mp) 2 then year + 1 else year) back,
      month_of mp,
      doy - (153 * mp + 2) / 5 + 1,
    )

-- From the day of the era, with the years before the era less `back`.
abbrev pub civil_of_era : ℕ → ℕ → ℕ → ℤ × ℕ × ℕ
civil_of_era years back doe =
    let yoe = year_of_era doe in
    civil_of_year (yoe + years) back (doe - (365 * yoe + yoe / 4 - yoe / 100))

-- On `z + 719_468`, where that is not negative.
abbrev pub civil_of_shifted : ℕ → ℤ × ℕ × ℕ
civil_of_shifted t = let era = t / 146_097 in civil_of_era (era * 400) 0 (t - era * 146_097)

-- On `z + 719_468`, where that is `-k`: the era is `-era`, since `/` rounds towards zero. Where
-- `-k - 146_096` leaves the `i64`s at the lower end it comes back at the upper, and what is left of the
-- era is 146,096 above the remainder of that.
abbrev pub civil_before : ℕ → ℤ × ℕ × ℕ
civil_before k =
    if leb (k + 146_096) (2 ^ 63)
    then (let era = (k + 146_096) / 146_097 in civil_of_era 0 (era * 400) (era * 146_097 - k))
    else (let t = 2 ^ 64 - (k + 146_096) in
        civil_of_era (t / 146_097 * 400) 0 (t % 146_097 + 146_096))

-- `z + 719_468`, which wraps.
abbrev pub shift_days : ℤ → ℤ
shift_days (pos z) = wrap_i64 (pos (z + 719_468))
shift_days (negsuc n) = minus 719_468 (n + 1)

abbrev pub civil_of : ℤ → ℤ × ℕ × ℕ
civil_of (pos t) = civil_of_shifted t
civil_of (negsuc n) = civil_before (n + 1)

unfoldable pub civil_from_days : ℤ → ℤ × ℕ × ℕ
civil_from_days z = civil_of (shift_days z)

-- The first day of a year of an era, by its century, its four years and the year in those.
year_of_era_lem :
    (a b c day : ℕ)
    → a < 4
    → b < 25
    → c < 4
    → day < 365
    → year_of_era (36_524 * c + 1_461 * b + 365 * a + day) ≡ 100 * c + 4 * b + a
year_of_era_lem a b c day ha hb hc hd = omega arith

year_of_era_leap :
    (b c : ℕ)
    → b < 25
    → c < 4
    → b < 24 ⊎ c ≡ 3
    → year_of_era (36_524 * c + 1_461 * b + 365 * 3 + 365) ≡ 100 * c + 4 * b + 3
year_of_era_leap b c hb hc (inl h) = omega arith
year_of_era_leap b c hb hc (inr h) = omega arith

-- The day of the year is below 366, or below 367 in a year whose last February has 29 days.
abbrev InYear : ℕ → ℕ → Type 0
InYear r doy = doy ≤ (if is_leap (r + 1) then 365 else 364)

abbrev first_day : ℕ → ℕ
first_day r = 365 * r + r / 4 - r / 100

by_centuries : (r : ℕ) → first_day r ≡ 36_524 * (r / 100) + 1_461 * (r % 100 / 4) + 365 * (r % 4)
by_centuries r = omega arith

leap_last :
    (r : ℕ) → r < 400 → is_leap (r + 1) ≡ true → (r % 4 ≡ 3) × (r % 100 / 4 < 24 ⊎ r / 100 ≡ 3)
leap_last r h e = ground arith

no_leap : (r doy : ℕ) → InYear r doy → is_leap (r + 1) ≡ false → doy < 365
no_leap r doy k e = ground arith

in_leap : (r doy : ℕ) → InYear r doy → is_leap (r + 1) ≡ true → doy ≤ 365
in_leap r doy k e = ground arith

year_of_era-common : (r doy : ℕ) → r < 400 → doy < 365 → year_of_era (first_day r + doy) ≡ r
year_of_era-common r doy h k =
    ap (λ (t : ℕ). year_of_era (t + doy)) (by_centuries r)
    ∙ year_of_era_lem (r % 4) (r % 100 / 4) (r / 100) doy (omega arith) (omega arith) (omega arith)
        k
    ∙ omega arith

year_of_era-leap_last :
    (r : ℕ)
    → r < 400
    → (r % 4 ≡ 3) × (r % 100 / 4 < 24 ⊎ r / 100 ≡ 3)
    → year_of_era (first_day r + 365) ≡ r
year_of_era-leap_last r h (three, last) =
    ap (λ (t : ℕ). year_of_era (t + 365)) (by_centuries r)
    ∙ ap (λ (a : ℕ). year_of_era (36_524 * (r / 100) + 1_461 * (r % 100 / 4) + 365 * a + 365)) three
    ∙ year_of_era_leap (r % 100 / 4) (r / 100) (omega arith) (omega arith) last
    ∙ omega (arith, three)

year_of_era-day : (r doy : ℕ) → r < 400 → InYear r doy → year_of_era (first_day r + doy) ≡ r
year_of_era-day r doy h k = elim (Bool-cases (is_leap (r + 1))) [
  | inl e ↦ elim (ℕ_discrete doy 365) [
    | yes full ↦ rw full (year_of_era-leap_last r h (leap_last r h e))
    | no part ↦ year_of_era-common r doy h (omega (arith, in_leap r doy k e))
  ]
  | inr e ↦ year_of_era-common r doy h (no_leap r doy k e)
]

month_back : (y m d : ℕ) → IsDate y m d → (5 * (day_of_year m d - 1) + 2) / 153 ≡ (m + 9) % 12
month_back y m d v = ground arith

month_of-back : (m : ℕ) → 1 ≤ m → m ≤ 12 → month_of ((m + 9) % 12) ≡ m
month_of-back m h k = ground arith

is_leap-mod : (z : ℕ) → is_leap (z % 400 + 1) ≡ is_leap (z + 1)
is_leap-mod z = ground arith

-- Only February reaches the end of the shifted year.
short_of_end : (y m d : ℕ) → IsDate y m d → m ≢ 2 → day_of_year m d - 1 ≤ 336
short_of_end y m d v n = ground arith

at_end : (y d : ℕ) → d ≤ month_length y 2 → day_of_year 2 d - 1 ≤ (if is_leap y then 365 else 364)
at_end y d v = ground arith

under_365 : (n : ℕ) (b : Bool) → n ≤ 336 → n ≤ (if b then 365 else 364)
under_365 n b h = ground arith

-- A date's day lies in its shifted year.
day_of_year-InYear :
    (y m d : ℕ) → IsDate y m d → InYear (shifted_year y m % 400) (day_of_year m d - 1)
day_of_year-InYear y m d v = elim (ℕ_discrete m 2) [
  | yes e ↦
      rw e (february (y - 1) (omega (arith, v)) (subst (λ k. d ≤ month_length y k) e v.day_high))
  | no n ↦ under_365 _ (is_leap (shifted_year y m % 400 + 1)) (short_of_end y m d v n)
]
  where
    february : (z : ℕ) → y ≡ z + 1 → d ≤ month_length y 2 → InYear (z % 400) (day_of_year 2 d - 1)
    february z e h = rw (is_leap-mod z, ← e) (at_end y d h)

-- An era has 146,097 days.
within_era : (r doy : ℕ) → r < 400 → InYear r doy → first_day r + doy < 146_097
within_era r doy h k = ground arith

era_of : (q t : ℕ) → t < 146_097 → (q * 146_097 + t) / 146_097 ≡ q
era_of q t h = omega arith

-- A shifted year and a day in it, back from the day that they make.
civil_of_shifted-day :
    (z doy : ℕ)
    → InYear (z % 400) doy
    → civil_of_shifted (z / 400 * 146_097 + (first_day (z % 400) + doy)) ≡ civil_of_year z 0 doy
civil_of_shifted-day z doy k =
    ap (λ (q : ℕ). civil_of_era (q * 400) 0 (z / 400 * 146_097 + t - q * 146_097)) era
    ∙ ap (λ (s : ℕ). civil_of_era (z / 400 * 400) 0 s) (omega arith)
    ∙ ap (λ (yoe : ℕ). civil_of_year (yoe + z / 400 * 400) 0 (t - first_day yoe))
        (year_of_era-day (z % 400) doy (omega arith) k)
    ∙ ap₂ (λ (a b : ℕ). civil_of_year a 0 b) (omega arith) (omega arith)
  where
    t : ℕ
    t = first_day (z % 400) + doy

    era : (z / 400 * 146_097 + t) / 146_097 ≡ z / 400
    era = era_of (z / 400) t (within_era (z % 400) doy (omega arith) k)

minus_zero : (n : ℕ) → minus n 0 ≡ pos n
minus_zero n = ground arith

civil_of_year-date :
    (y m d : ℕ)
    → IsDate y m d
    → civil_of_year (shifted_year y m) 0 (day_of_year m d - 1) ≡ (pos y, m, d)
civil_of_year-date y m d v =
    rw (month_back y m d v, month_of-back m v.month_low v.month_high)
      (ap₂ (λ (a : ℤ) (b : ℕ). (a, m, b)) (minus_zero _ ∙ ap pos (year_back y m (omega (arith, v))))
        (omega (arith, v)))
  where
    year_back : (y m : ℕ) → 1 ≤ y → (if leb m 2 then shifted_year y m + 1 else shifted_year y m) ≡ y
    year_back y m h = ground arith

shift :
    (z day : ℕ)
    → 1969 ≤ z
    → 306 < day ⊎ 1970 ≤ z
    → 1 ≤ day
    → day_number z day + 719_468 ≡ z / 400 * 146_097 + (first_day (z % 400) + (day - 1))
shift z day low (inl h) k = omega arith
shift z day low (inr h) k = omega arith

civil_from_days-number :
    (y m d : ℕ)
    → IsDate y m d
    → number (y, m, d) + 719_468 < 2 ^ 63
    → civil_from_days (pos (number (y, m, d))) ≡ (pos y, m, d)
unfolding civil_from_days
civil_from_days-number y m d v fits =
    ap civil_of (wrap_i64-pos (number (y, m, d) + 719_468) fits)
    ∙ ap civil_of_shifted (
        shift (shifted_year y m) (day_of_year m d) (shifted_year_low y m v.year) (late_days y m d v)
          (omega (arith, v)))
    ∙ civil_of_shifted-day (shifted_year y m) (day_of_year m d - 1) (day_of_year-InYear y m d v)
    ∙ civil_of_year-date y m d v

-- `civil_from_days` gives back the date of every day from 1970-01-01 on, counted day by day, up to the
-- last whose number plus 719,468 is below 2 ^ 63, so that this sum does not leave the `i64`s.
pub civil_from_days-nth_day :
    (n : ℕ)
    → n + 719_468 < 2 ^ 63
    → civil_from_days (pos n) ≡ (let (y, m, d) = nth_day n in (pos y, m, d))
civil_from_days-nth_day n fits =
    let (y, m, d) = nth_day n in
    ap (λ (k : ℕ). civil_from_days (pos k)) (sym (number-nth_day n))
    ∙ civil_from_days-number y m d (nth_day-IsDate n) (omega (arith, number-nth_day n))
