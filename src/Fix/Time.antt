-- ===== src/Fix/Time.antt =====
-- The UTC instants of crates/jeed-fix/src/tagvalue.rs, in nanoseconds. Days and years are `i64`s: a sum
-- that does not fit wraps, as in a release build.
pub mod Calendar
pub mod Civil
use jeed.Base.{
  ℕ, zero, suc, ◌+◌, ◌-◌, ◌*◌, ◌/◌, ◌%◌, ◌^◌, List, [], ◌∷◌, Option, none, some, Bool, ◌&&◌, ◌||◌,
  not,
}
use jeed.Base.{ltb, leb, ◌==◌, if◌then◌else◌, length, take, drop, get_or}
use jeed.Base.Options.{◌>>=◌}
use jeed.Base.Ints.{ℤ, pos, negsuc, minus, wrap_i64}
use jeed.Fix.TagValue.{parse_u64}

abbrev pub ns_per_sec : ℕ
ns_per_sec = 1_000_000_000

-- `y - 1`
abbrev pub year_before : ℤ → ℤ
year_before (pos zero) = negsuc 0
year_before (pos (suc y)) = pos y
year_before (negsuc y) = wrap_i64 (negsuc (suc y))

-- Days before the month of the shifted year (March first), and in it up to `d`.
abbrev pub day_of_year : ℕ → ℕ → ℕ
day_of_year m d = (153 * ((m + 9) % 12) + 2) / 5 + d

-- `era * 146_097 + doe - 719_468`: what is added less what is taken away, the latter with the 1 of
-- `doy`.
abbrev pub from_era : ℤ → ℕ → ℕ → ℤ
from_era (pos era) yoe day =
    wrap_i64 (minus (era * 146_097 + yoe * 365 + yoe / 4 + day) (yoe / 100 + 1 + 719_468))
from_era (negsuc e) yoe day =
    wrap_i64 (minus (yoe * 365 + yoe / 4 + day) (suc e * 146_097 + yoe / 100 + 1 + 719_468))

-- On the shifted year. Before year 0 the era is negative, and `/` rounds towards zero; where `y - 399`
-- leaves the `i64`s at the lower end it comes back at the upper, and `y - era * 400` is 399 above the
-- remainder of that.
unfoldable pub shifted_days : ℤ → ℕ → ℤ
shifted_days (pos y) day = from_era (pos (y / 400)) (y % 400) day
shifted_days (negsuc n) day =
    if leb (n + 400) (2 ^ 63)
    then (let era = (n + 400) / 400 in from_era (negsuc (era - 1)) (era * 400 - (n + 1)) day)
    else (let t = 2 ^ 64 - (n + 400) in from_era (pos (t / 400)) (t % 400 + 399) day)

unfoldable pub days_from_civil : ℤ → ℕ → ℕ → ℤ
unfolding shifted_days
days_from_civil y m d = shifted_days (if leb m 2 then year_before y else y) (day_of_year m d)

-- `u64::try_from(days).ok()`
abbrev pub from_days : ℤ → Option ℕ
from_days (pos n) = some n
from_days (negsuc n) = none

abbrev pub checked_u64 : ℕ → Option ℕ
checked_u64 n = if ltb n (2 ^ 64) then some n else none

-- The tail of `parse_utc_date`, on a year, a month and a day that have been read.
unfoldable pub date_ns : ℕ → ℕ → ℕ → Option ℕ
date_ns y m d = if not (leb 1 m && leb m 12) || not (leb 1 d && leb d 31) then none else do
  days ← from_days (days_from_civil (pos y) m d)
  secs ← checked_u64 (days * 86_400)
  checked_u64 (secs * ns_per_sec)

unfoldable pub parse_utc_date : List ℕ → Option ℕ
unfolding date_ns
parse_utc_date bytes = if not (length bytes == 8) then none else do
  y ← parse_u64 (take 4 bytes)
  m ← parse_u64 (take 2 (drop 4 bytes))
  d ← parse_u64 (take 2 (drop 6 bytes))
  date_ns y m d

-- `v * 10u64.pow(9 - frac.len())`
abbrev pub fraction : List ℕ → Option ℕ
fraction frac =
    if length frac == 0 || ltb 9 (length frac)
    then none
    else do v ← parse_u64 frac; some (v * 10 ^ (9 - length frac) % 2 ^ 64)

-- What follows the seconds.
unfoldable pub frac_ns : List ℕ → Option ℕ
frac_ns [] = some 0
frac_ns (b ∷ frac) = if b == b'.' then fraction frac else none

unfoldable pub time_ns : ℕ → ℕ → ℕ → List ℕ → Option ℕ
time_ns h m s tail =
    if ltb 23 h || ltb 59 m || ltb 60 s
    then none
    else do f ← frac_ns tail; some (((h * 3_600 + m * 60 + s) * ns_per_sec + f) % 2 ^ 64)

unfoldable pub parse_utc_time : List ℕ → Option ℕ
unfolding time_ns frac_ns
parse_utc_time bytes =
    if ltb (length bytes) 8 || not (get_or bytes 2 0 == b':') || not (get_or bytes 5 0 == b':')
    then none
    else do
      h ← parse_u64 (take 2 bytes)
      m ← parse_u64 (take 2 (drop 3 bytes))
      s ← parse_u64 (take 2 (drop 6 bytes))
      time_ns h m s (drop 8 bytes)

unfoldable pub parse_utc_timestamp : List ℕ → Option ℕ
unfolding parse_utc_date parse_utc_time
parse_utc_timestamp bytes =
    if ltb (length bytes) 17 || not (get_or bytes 8 0 == b'-') then none else do
      date ← parse_utc_date (take 8 bytes)
      time ← parse_utc_time (drop 9 bytes)
      some ((date + time) % 2 ^ 64)
