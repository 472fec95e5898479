-- ===== src/Fix/Emit/StampRead.antt =====
-- `parse_utc_timestamp` reads back what `write_sending_time` writes.
use jeed.Base.{ℕ, ◌+◌, ◌/◌, ◌%◌, ◌*◌, ◌^◌, ◌≤◌, ◌<◌, List, ◌∷◌, ◌++◌, some, take, drop, get_or}
use jeed.Base.{length, length-append, ◌≡◌, ◌∙◌, ap, arith, ltb, ◌==◌}
use jeed.Base.{
  false, true, take_of_length_le, eq→==, leb, not, ◌&&◌, ◌||◌, le→ltb, take_append_len,
  drop_append_at, get_or_append_at,
}
use jeed.Base.Ints.{pos}
use jeed.Fix.TagValue.{parse_u64}
use jeed.Fix.Time.{
  days_from_civil, parse_utc_date, parse_utc_time, parse_utc_timestamp, date_ns, time_ns, frac_ns,
  fraction,
}
use jeed.Fix.Time.Calendar.{
  number-nth_day, nth_day, nth_day-IsDate, days_from_civil-nth_day, IsDate,
}
use jeed.Fix.Emit.Writer.{sending_time}
use jeed.Fix.Emit.Writes.{padded}
use jeed.Fix.Emit.Stamp.{date_text, time_text, sending_time_lem, day_of}
use jeed.Fix.Emit.Stamp.{
  length-padded, parse_u64-padded, length-date_text, length-time_text, year_bound, days_bound,
}

-- The parts of `HH:MM:SS.mmm`.
module _ (h mi s tail : List ℕ) (two_h : length h ≡ 2) (two_mi : length mi ≡ 2)
    (two_s : length s ≡ 2) where
  abbrev clock : List ℕ
  clock = h ++ b':' ∷ (mi ++ b':' ∷ (s ++ tail))

  hours_of : take 2 clock ≡ h
  hours_of = take_append_len h (b':' ∷ (mi ++ b':' ∷ (s ++ tail))) 2 (omega (arith, two_h))

  minutes_of : take 2 (drop 3 clock) ≡ mi
  minutes_of =
      ap (take 2) (drop_append_at h (b':' ∷ (mi ++ b':' ∷ (s ++ tail))) 3 1 (omega (arith, two_h)))
      ∙ take_append_len mi (b':' ∷ (s ++ tail)) 2 (omega (arith, two_mi))

  after_minutes : drop 6 clock ≡ s ++ tail
  after_minutes =
      drop_append_at h (b':' ∷ (mi ++ b':' ∷ (s ++ tail))) 6 4 (omega (arith, two_h))
      ∙ drop_append_at mi (b':' ∷ (s ++ tail)) 3 1 (omega (arith, two_mi))

  seconds_of : take 2 (drop 6 clock) ≡ s
  seconds_of = ap (take 2) after_minutes ∙ take_append_len s tail 2 (omega (arith, two_s))

  tail_of : drop 8 clock ≡ tail
  tail_of =
      drop_append_at h (b':' ∷ (mi ++ b':' ∷ (s ++ tail))) 8 6 (omega (arith, two_h))
      ∙ drop_append_at mi (b':' ∷ (s ++ tail)) 5 3 (omega (arith, two_mi))
      ∙ drop_append_at s tail 2 0 (omega (arith, two_s))

  first_colon : get_or clock 2 0 ≡ b':'
  first_colon = get_or_append_at h (b':' ∷ (mi ++ b':' ∷ (s ++ tail))) 0 2 0 (omega (arith, two_h))

  second_colon : get_or clock 5 0 ≡ b':'
  second_colon =
      get_or_append_at h (b':' ∷ (mi ++ b':' ∷ (s ++ tail))) 0 5 3 (omega (arith, two_h))
      ∙ get_or_append_at mi (b':' ∷ (s ++ tail)) 0 2 0 (omega (arith, two_mi))

  length-clock : length clock ≡ 8 + length tail
  length-clock = omega (
    arith,
    length-append h (b':' ∷ (mi ++ b':' ∷ (s ++ tail))),
    length-append mi (b':' ∷ (s ++ tail)),
    length-append s tail,
    two_h,
    two_mi,
    two_s,
  )

  long_enough : ltb (length clock) 8 ≡ false
  long_enough = rw length-clock (le→ltb (8 + length tail) 8 (omega arith))

  -- The parts are read where they stand.
  pub parse_utc_time-clock :
      {a b c : ℕ}
      → parse_u64 h ≡ some a
      → parse_u64 mi ≡ some b
      → parse_u64 s ≡ some c
      → parse_utc_time clock ≡ time_ns a b c tail
  unfolding parse_utc_time
  parse_utc_time-clock ha hb hc = rw (
    long_enough, first_colon, second_colon, hours_of, ha, minutes_of, hb, seconds_of, hc, tail_of,
  )

fraction-millis :
    (millis : ℕ) → millis < 1_000 → fraction (padded 3 millis) ≡ some (millis * 1_000_000)
fraction-millis millis h =
    rw
      (
        length-padded 2 millis (omega (arith, h)) (omega arith),
        parse_u64-padded 2 millis (omega (arith, h)) (omega arith),
      )
      (ap some (omega (arith, h)))

time_ns-millis :
    (h mi s millis : ℕ)
    → h < 24
    → mi < 60
    → s < 60
    → millis < 1_000
    → time_ns h mi s (b'.' ∷ padded 3 millis)
      ≡ some ((h * 3_600 + mi * 60 + s) * 1_000_000_000 + millis * 1_000_000)
unfolding time_ns frac_ns
time_ns-millis h mi s millis hh hm hs hms = rw (fraction-millis millis hms) (ground arith)

parse_utc_time-text :
    (sod millis : ℕ)
    → sod < 86_400
    → millis < 1_000
    → parse_utc_time (time_text sod millis) ≡ some (sod * 1_000_000_000 + millis * 1_000_000)
parse_utc_time-text sod millis hs hms =
    parse_utc_time-clock (padded 2 (sod / 3_600)) (padded 2 (sod / 60 % 60)) (padded 2 (sod % 60))
      (b'.' ∷ padded 3 millis) (length-padded 1 (sod / 3_600) (omega (arith, hs)) (omega arith))
      (length-padded 1 (sod / 60 % 60) (omega arith) (omega arith))
      (length-padded 1 (sod % 60) (omega arith) (omega arith))
      (parse_u64-padded 1 (sod / 3_600) (omega (arith, hs)) (omega arith))
      (parse_u64-padded 1 (sod / 60 % 60) (omega arith) (omega arith))
      (parse_u64-padded 1 (sod % 60) (omega arith) (omega arith))
    ∙ time_ns-millis (sod / 3_600) (sod / 60 % 60) (sod % 60) millis (omega (arith, hs))
        (omega arith) (omega arith) hms
    ∙ ap some (omega arith)

date_ns-days :
    (y m d n : ℕ)
    → IsDate y m d
    → days_from_civil (pos y) m d ≡ pos n
    → n < 213_504
    → date_ns y m d ≡ some (n * 86_400 * 1_000_000_000)
unfolding date_ns
date_ns-days y m d n v days small =
    rw (days, in_range m d v.month_low v.month_high v.day_low (omega (arith, v, days_bound y m)))
      (ground arith)
  where
    in_range :
        (m d : ℕ)
        → 1 ≤ m
        → m ≤ 12
        → 1 ≤ d
        → d ≤ 31
        → (not (leb 1 m && leb m 12) || not (leb 1 d && leb d 31)) ≡ false
    in_range m d h k l o = ground arith

-- The parts of `YYYYMMDD`.
module _ (y m d : List ℕ) (four_y : length y ≡ 4) (two_m : length m ≡ 2)
    (two_d : length d ≡ 2) where
  year_of : take 4 (y ++ (m ++ d)) ≡ y
  year_of = take_append_len y (m ++ d) 4 (omega (arith, four_y))

  month_of : take 2 (drop 4 (y ++ (m ++ d))) ≡ m
  month_of =
      ap (take 2) (drop_append_at y (m ++ d) 4 0 (omega (arith, four_y)))
      ∙ take_append_len m d 2 (omega (arith, two_m))

  day_part : take 2 (drop 6 (y ++ (m ++ d))) ≡ d
  day_part =
      ap (take 2) (
        drop_append_at y (m ++ d) 6 2 (omega (arith, four_y))
        ∙ drop_append_at m d 2 0 (omega (arith, two_m)))
      ∙ take_of_length_le 2 d (omega (arith, two_d))

  eight : (length (y ++ (m ++ d)) == 8) ≡ true
  eight =
      eq→== _ _ (omega (arith, length-append y (m ++ d), length-append m d, four_y, two_m, two_d))

  pub parse_utc_date-parts :
      {a b c : ℕ}
      → parse_u64 y ≡ some a
      → parse_u64 m ≡ some b
      → parse_u64 d ≡ some c
      → parse_utc_date (y ++ (m ++ d)) ≡ date_ns a b c
  unfolding parse_utc_date
  parse_utc_date-parts ha hb hc = rw (eight, year_of, ha, month_of, hb, day_part, hc)

-- The date of a day, read back as the midnight it begins with.
parse_utc_date-text :
    (y m d n : ℕ)
    → IsDate y m d
    → y < 10_000
    → days_from_civil (pos y) m d ≡ pos n
    → n < 213_504
    → parse_utc_date (date_text y m d) ≡ some (n * 86_400 * 1_000_000_000)
parse_utc_date-text y m d n v hy days small =
    parse_utc_date-parts (padded 4 y) (padded 2 m) (padded 2 d)
      (length-padded 3 y (omega (arith, hy)) (omega arith))
      (length-padded 1 m (omega (arith, v)) (omega arith))
      (length-padded 1 d (omega (arith, v, days_bound y m)) (omega arith))
      (parse_u64-padded 3 y (omega (arith, hy)) (omega arith))
      (parse_u64-padded 1 m (omega (arith, v)) (omega arith))
      (parse_u64-padded 1 d (omega (arith, v, days_bound y m)) (omega arith))
    ∙ date_ns-days y m d n v days small

-- Both halves of a time stamp.
module _ (date time : List ℕ) (eight_date : length date ≡ 8) (long_time : 8 ≤ length time) where
  pub parse_utc_timestamp-parts :
      {a b : ℕ}
      → parse_utc_date date ≡ some a
      → parse_utc_time time ≡ some b
      → parse_utc_timestamp (date ++ b'-' ∷ time) ≡ some ((a + b) % 2 ^ 64)
  unfolding parse_utc_timestamp
  parse_utc_timestamp-parts ha hb = rw (
    le→ltb (length (date ++ b'-' ∷ time)) 17
        (omega (arith, length-append date (b'-' ∷ time), eight_date, long_time)),
    get_or_append_at date (b'-' ∷ time) 0 8 0 (omega (arith, eight_date)),
    take_append_len date (b'-' ∷ time) 8 (omega (arith, eight_date)),
    ha,
    drop_append_at date (b'-' ∷ time) 9 1 (omega (arith, eight_date)),
    hb,
  )

-- A time stamp that `write_sending_time` writes, of any instant that a `u64` of nanoseconds holds, is
-- read back by `parse_utc_timestamp` as that instant, cut to milliseconds.
pub parse_utc_timestamp-sending_time :
    (now : ℕ)
    → now < 2 ^ 64
    → parse_utc_timestamp (sending_time now) ≡ some (now / 1_000_000 * 1_000_000)
parse_utc_timestamp-sending_time now h =
    let (y, m, d) = nth_day (day_of now) in
    let v = nth_day-IsDate (day_of now) in
    let hy = year_bound y m d v (omega (arith, number-nth_day (day_of now))) in
    ap parse_utc_timestamp (sending_time_lem now h)
    ∙ parse_utc_timestamp-parts (date_text y m d) (time_text sod millis)
        (length-date_text y m d hy (omega (arith, v)) (omega (arith, v, days_bound y m)))
        (omega (arith, length-time_text sod millis (omega arith) (omega arith)))
        (parse_utc_date-text y m d (day_of now) v hy
          (days_from_civil-nth_day (day_of now) (omega arith)) (omega arith))
        (parse_utc_time-text sod millis (omega arith) (omega arith))
    ∙ ap some (omega arith)
  where
    sod : ℕ
    sod = now / 1_000_000_000 % 86_400

    millis : ℕ
    millis = now % 1_000_000_000 / 1_000_000
