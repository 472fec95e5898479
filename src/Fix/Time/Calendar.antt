-- ===== src/Fix/Time/Calendar.antt =====
-- `days_from_civil` against the calendar, and the range of a time of day.
use jeed.Base.{ℕ, ◌+◌, ◌-◌, ◌*◌, ◌/◌, ◌%◌, ◌≤◌, ◌≡◌, refl, arith, Bool, ◌&&◌, ◌||◌, not}
use jeed.Base.{◌==◌, leb, leb→le, Bool-cases, if◌then◌else◌}
use jeed.Base.Ints.{ℤ, pos, minus, wrap_i64, wrap_i64-pos}
use jeed.Fix.Time.{days_from_civil, shifted_days, day_of_year, year_before}
use jeed.Base.{subst, ◌^◌, ltb, ◌<◌, ◌⊎◌, ◌≢◌, false, zero, suc, ap, ap₂, lt→ltb, ◌∙◌, inl, inr}
use native.Mathlib.Numerals.{add-one}
use native.Mathlib.Decide.{ℕ_discrete}

abbrev pub is_leap : ℕ → Bool
is_leap y = y % 4 == 0 && (not (y % 100 == 0) || y % 400 == 0)

abbrev pub month_length : ℕ → ℕ → ℕ
month_length y m =
    if m == 2
    then (if is_leap y then 29 else 28)
    else (if m == 4 || m == 6 || m == 9 || m == 11 then 30 else 31)

epoch : days_from_civil (pos 1970) 1 1 ≡ pos 0
unfolding days_from_civil wrap_i64
epoch = refl

-- The day after a date of the calendar.
abbrev pub next_day : ℕ → ℕ → ℕ → ℕ × ℕ × ℕ
next_day y m d =
    if ltb d (month_length y m)
    then (y, m, d + 1)
    else (if ltb m 12 then (y, m + 1, 1) else (y + 1, 1, 1))

abbrev pub days : ℕ × ℕ × ℕ → ℤ
days (y, m, d) = days_from_civil (pos y) m d

-- The number of a day, which is at least 0 from 1970 on.
abbrev pub day_number : ℕ → ℕ → ℕ
day_number z day = z / 400 * 146_097 + z % 400 * 365 + z % 400 / 4 + day - (z % 400 / 100 + 719_469)

-- The last day of a shifted year, and the first of the next.
year_step :
    (z day : ℕ)
    → 1969 ≤ z
    → day ≡ (if is_leap (z + 1) then 366 else 365)
    → day_number (z + 1) 1 ≡ day_number z day + 1
year_step z day h e = ground arith

day_number_lem :
    (z day : ℕ)
    → 1969 ≤ z
    → 306 < day ⊎ 1970 ≤ z
    → minus (z / 400 * 146_097 + z % 400 * 365 + z % 400 / 4 + day) (z % 400 / 100 + 1 + 719_468)
      ≡ pos (day_number z day)
day_number_lem z day h k = ground arith

shifted_days_lem :
    (z day : ℕ)
    → 1969 ≤ z
    → 306 < day ⊎ 1970 ≤ z
    → day_number z day < 2 ^ 63
    → shifted_days (pos z) day ≡ pos (day_number z day)
unfolding shifted_days
shifted_days_lem z day h k fits =
    ap wrap_i64 (day_number_lem z day h k) ∙ wrap_i64-pos (day_number z day) fits

pub record IsDate (y m d : ℕ) : Type 0 where
  pub year : 1970 ≤ y
  pub month_low : 1 ≤ m
  pub month_high : m ≤ 12
  pub day_low : 1 ≤ d
  pub day_high : d ≤ month_length y m

abbrev pub shifted_year : ℕ → ℕ → ℕ
shifted_year y m = if leb m 2 then y - 1 else y

abbrev pub number : ℕ × ℕ × ℕ → ℕ
number (y, m, d) = day_number (shifted_year y m) (day_of_year m d)

year_before_lem : (y : ℕ) → 1 ≤ y → year_before (pos y) ≡ pos (y - 1)
year_before_lem zero h = absurd (omega arith)
year_before_lem (suc y) h = ap pos (omega arith)

early_days : (m d : ℕ) → 1 ≤ m → m ≤ 2 → 1 ≤ d → 306 < day_of_year m d
early_days m d h k l = ground arith

days-number :
    (y m d : ℕ) → IsDate y m d → number (y, m, d) < 2 ^ 63 → days (y, m, d) ≡ pos (number (y, m, d))
unfolding days_from_civil
days-number y m d v fits = elim (Bool-cases (leb m 2)) [
  | inl e ↦
      rw (e, year_before_lem y (omega (arith, v)))
        (shifted_days_lem (y - 1) (day_of_year m d) (omega (arith, v))
          (inl (early_days m d v.month_low (leb→le m 2 e) v.day_low)) (in_year (y - 1) (rw e refl)))
  | inr e ↦
      rw e (
        shifted_days_lem y (day_of_year m d) (omega (arith, v)) (inr v.year)
          (in_year y (rw e refl)))
]
  where
    in_year : (z : ℕ) → shifted_year y m ≡ z → day_number z (day_of_year m d) < 2 ^ 63
    in_year z e = subst (λ (t : ℕ). day_number t (day_of_year m d) < 2 ^ 63) e fits

next_day-IsDate : (y m d : ℕ) → IsDate y m d → let (y', m', d') = next_day y m d in IsDate y' m' d'
next_day-IsDate y m d v = ground arith

same_year :
    (z day : ℕ) → 1969 ≤ z → 306 < day ⊎ 1970 ≤ z → day_number z (day + 1) ≡ day_number z day + 1
same_year z day h k = ground arith

-- Both days of a step, where they lie in one shifted year or on both sides of its end.
month_step :
    (y m : ℕ)
    → 1 ≤ m
    → m ≢ 2
    → m < 12
    → (day_of_year (m + 1) 1 ≡ day_of_year m (month_length y m) + 1)
      × (shifted_year y (m + 1) ≡ shifted_year y m)
month_step y m h k l = ground arith

pub late_days : (y m d : ℕ) → IsDate y m d → 306 < day_of_year m d ⊎ 1970 ≤ shifted_year y m
late_days y m d v = elim (Bool-cases (leb m 2)) [
  | inl e ↦ inl (early_days m d v.month_low (leb→le m 2 e) v.day_low)
  | inr e ↦ rw e (inr v.year)
]

pub shifted_year_low : (y m : ℕ) → 1970 ≤ y → 1969 ≤ shifted_year y m
shifted_year_low y m h = ground arith

abbrev next_month : ℕ → ℕ → ℕ × ℕ × ℕ
next_month y m = if ltb m 12 then (y, m + 1, 1) else (y + 1, 1, 1)

february_days : (y : ℕ) → day_of_year 2 (month_length y 2) ≡ (if is_leap y then 366 else 365)
february_days y = ground arith

february_turn :
    (z : ℕ) → 1969 ≤ z → number (z + 1, 3, 1) ≡ number (z + 1, 2, month_length (z + 1) 2) + 1
february_turn z k =
    year_step z (day_of_year 2 (month_length (z + 1) 2)) k (february_days (z + 1))
    ∙ ap (λ (s : ℕ). day_number s (day_of_year 2 (month_length (z + 1) 2)) + 1) (omega arith)

february_end : (y : ℕ) → 1970 ≤ y → number (y, 3, 1) ≡ number (y, 2, month_length y 2) + 1
february_end zero h = absurd (omega arith)
february_end (suc z) h = rw (← add-one) (february_turn z (omega arith))

december_end : (y : ℕ) → 1970 ≤ y → number (y + 1, 1, 1) ≡ number (y, 12, 31) + 1
december_end y h =
    rw (let e : y + 1 - 1 ≡ y = omega arith in e) (same_year y 306 (omega arith) (inr h))

some_days : (y m : ℕ) → 28 ≤ month_length y m
some_days y m = ground arith

late_month :
    (y m : ℕ)
    → 1970 ≤ y
    → 1 ≤ m
    → m ≤ 12
    → 306 < day_of_year m (month_length y m) ⊎ 1970 ≤ shifted_year y m
late_month y m h k l = late_days y m (month_length y m) (record {
  year = h;
  month_low = k;
  month_high = l;
  day_low = omega (arith, some_days y m);
  day_high = omega arith;
})

number-next_month :
    (y m : ℕ)
    → 1970 ≤ y
    → 1 ≤ m
    → m ≤ 12
    → number (next_month y m) ≡ number (y, m, month_length y m) + 1
number-next_month y m h k l = elim (ℕ_discrete m 2) [
  | yes e ↦ rw e (february_end y h)
  | no n ↦ elim (ℕ_discrete m 12) [
    | yes e ↦ rw e (december_end y h)
    | no n' ↦ rw (lt→ltb m 12 (omega arith)) (mid (month_step y m k n (omega arith)))
  ]
]
  where
    mid :
        (day_of_year (m + 1) 1 ≡ day_of_year m (month_length y m) + 1)
          × (shifted_year y (m + 1) ≡ shifted_year y m)
        → number (y, m + 1, 1) ≡ number (y, m, month_length y m) + 1
    mid (e, f) =
        ap₂ day_number f e
        ∙ same_year (shifted_year y m) (day_of_year m (month_length y m)) (shifted_year_low y m h)
            (late_month y m h k l)

number-next_day : (y m d : ℕ) → IsDate y m d → number (next_day y m d) ≡ number (y, m, d) + 1
number-next_day y m d v = elim (Bool-cases (ltb d (month_length y m))) [
  | inl e ↦ rw e (
      ap (day_number (shifted_year y m)) (omega arith)
      ∙ same_year (shifted_year y m) (day_of_year m d) (shifted_year_low y m v.year)
          (late_days y m d v))
  | inr e ↦
      rw (e, last_day (month_length y m) d v.day_high e)
        (number-next_month y m v.year v.month_low v.month_high)
]
  where
    last_day : (n d : ℕ) → d ≤ n → ltb d n ≡ false → d ≡ n
    last_day n d h k = ground arith

-- The `n`th day after the epoch, by the rules of the calendar alone.
unfoldable pub nth_day : ℕ → ℕ × ℕ × ℕ
nth_day zero = (1970, 1, 1)
nth_day (suc n) = let (y, m, d) = nth_day n in next_day y m d

pub nth_day-IsDate : (n : ℕ) → let (y, m, d) = nth_day n in IsDate y m d
unfolding nth_day
nth_day-IsDate zero = ground arith
nth_day-IsDate (suc n) = let (y, m, d) = nth_day n in next_day-IsDate y m d (nth_day-IsDate n)

pub number-nth_day : (n : ℕ) → number (nth_day n) ≡ n
unfolding nth_day
number-nth_day zero = refl
number-nth_day (suc n) =
    let (y, m, d) = nth_day n in
    number-next_day y m d (nth_day-IsDate n) ∙ omega (arith, number-nth_day n)

-- `days_from_civil` numbers the days of the proleptic Gregorian calendar: the date that comes `n` days
-- after 1970-01-01, counted day by day with the calendar's month lengths and leap years, has number
-- `n`, for every `n` up to 719,468 below 2 ^ 63, so that no sum leaves the `i64`s.
pub days_from_civil-nth_day : (n : ℕ) → n + 719_468 < 2 ^ 63 → days (nth_day n) ≡ pos n
days_from_civil-nth_day n fits =
    let (y, m, d) = nth_day n in
    days-number y m d (nth_day-IsDate n) (omega (arith, number-nth_day n))
    ∙ ap pos (number-nth_day n)
