-- ===== src/Fix/Emit/Stamp.antt =====
-- What `write_sending_time` writes: the date of the calendar and the time of day, each number padded.
use jeed.Base.{
  ℕ, zero, suc, ◌+◌, ◌-◌, ◌/◌, ◌%◌, ◌*◌, ◌^◌, ◌≤◌, ◌<◌, List, [], ◌∷◌, ◌++◌, some, none,
}
use jeed.Base.{length, replicate, length-append, ◌≡◌, refl, ◌∙◌, ap, arith, subst}
use jeed.Base.Ints.{pos}
use jeed.Fix.TagValue.{parse_u64}
use jeed.Fix.TagValue.Numeral.{numeral, IsNumeral, numeral-IsNumeral, parse_u64-IsNumeral}
use jeed.Base.{leb, if◌then◌else◌, append_assoc}
use native.Mathlib.Nat.{mod-eq_of_lt}
use jeed.Fix.Time.{day_of_year}
use jeed.Fix.Time.Calendar.{
  IsDate, month_length, nth_day, nth_day-IsDate, number, number-nth_day, shifted_year, day_number,
}
use jeed.Fix.Time.Civil.{civil_from_days-nth_day}
use jeed.Fix.Emit.Writer.{Writer, stamp, sending_time, or_nothing, finish, new, pad, byte}
use jeed.Fix.Emit.Writes.{Writes, Writes-trans, pad-Writes, byte-Writes, padded, finish-new}

zero-IsNumeral : (k n : ℕ) (bs : List ℕ) → IsNumeral k n bs → IsNumeral (suc k) n (b'0' ∷ bs)
zero-IsNumeral k n bs v = record {
  bytes = (omega arith, v.bytes);
  digits = v.digits;
  some_digit = omega arith;
  short = omega (arith, v.short);
  value = omega (arith, v.value);
}

zeros-IsNumeral :
    (j k n : ℕ) (bs : List ℕ) → IsNumeral k n bs → IsNumeral (j + k) n (replicate j b'0' ++ bs)
zeros-IsNumeral zero k n bs v = subst (λ i. IsNumeral i n bs) (omega arith) v
zeros-IsNumeral (suc j) k n bs v =
    subst (λ i. IsNumeral i n (b'0' ∷ (replicate j b'0' ++ bs))) (omega arith)
      (zero-IsNumeral (j + k) n (replicate j b'0' ++ bs) (zeros-IsNumeral j k n bs v))

length-replicate : (j b : ℕ) → length (replicate j b) ≡ j
length-replicate zero b = refl
length-replicate (suc j) b = ap suc (length-replicate j b)

-- A number below `10 ^ (k + 1)`, padded to `k + 1` digits.
module _ (k v : ℕ) (small : v < 10 ^ suc k) (narrow : suc k ≤ 19) where
  digits : IsNumeral (suc k) v (numeral v)
  digits = numeral-IsNumeral k v small (omega (arith, narrow))

  pub length-padded : length (padded (suc k) v) ≡ suc k
  length-padded = omega (
    arith,
    digits.short,
    length-append (replicate (suc k - length (numeral v)) b'0') (numeral v),
    length-replicate (suc k - length (numeral v)) b'0',
  )

  pub padded-IsNumeral : IsNumeral (suc k) v (padded (suc k) v)
  padded-IsNumeral =
      subst (λ i. IsNumeral i v (padded (suc k) v)) (omega (arith, digits.short))
        (zeros-IsNumeral (suc k - length (numeral v)) (length (numeral v)) v (numeral v) (record {
          bytes = digits.bytes;
          digits = digits.digits;
          some_digit = digits.some_digit;
          short = omega arith;
          value = digits.value;
        }))

  pub parse_u64-padded : parse_u64 (padded (suc k) v) ≡ some v
  parse_u64-padded = parse_u64-IsNumeral (suc k) v (padded (suc k) v) narrow padded-IsNumeral

-- `HH:MM:SS.mmm`
abbrev pub time_text : ℕ → ℕ → List ℕ
time_text sod millis =
    padded 2 (sod / 3_600)
    ++ b':' ∷ (padded 2 (sod / 60 % 60) ++ b':' ∷ (padded 2 (sod % 60) ++ b'.' ∷ padded 3 millis))

-- `YYYYMMDD`
abbrev pub date_text : ℕ → ℕ → ℕ → List ℕ
date_text y m d = padded 4 y ++ (padded 2 m ++ padded 2 d)

abbrev pub stamp_text : ℕ × ℕ × ℕ → ℕ → ℕ → List ℕ
stamp_text (y, m, d) sod millis = date_text y m d ++ b'-' ∷ time_text sod millis

pub length-time_text :
    (sod millis : ℕ) → sod < 86_400 → millis < 1_000 → length (time_text sod millis) ≡ 12
length-time_text sod millis hs hm = omega (
  arith,
  length-append (padded 2 (sod / 3_600))
      (b':' ∷ (padded 2 (sod / 60 % 60) ++ b':' ∷ (padded 2 (sod % 60) ++ b'.' ∷ padded 3 millis))),
  length-append (padded 2 (sod / 60 % 60)) (b':' ∷ (padded 2 (sod % 60) ++ b'.' ∷ padded 3 millis)),
  length-append (padded 2 (sod % 60)) (b'.' ∷ padded 3 millis),
  length-padded 1 (sod / 3_600) (omega arith) (omega arith),
  length-padded 1 (sod / 60 % 60) (omega arith) (omega arith),
  length-padded 1 (sod % 60) (omega arith) (omega arith),
  length-padded 2 millis (omega arith) (omega arith),
)

pub length-date_text : (y m d : ℕ) → y < 10_000 → m < 100 → d < 100 → length (date_text y m d) ≡ 8
length-date_text y m d hy hm hd = omega (
  arith,
  length-append (padded 4 y) (padded 2 m ++ padded 2 d),
  length-append (padded 2 m) (padded 2 d),
  length-padded 3 y (omega arith) (omega arith),
  length-padded 1 m (omega arith) (omega arith),
  length-padded 1 d (omega arith) (omega arith),
)

left_nested :
    (y m d h mi s ms : List ℕ)
    → (((((((((y ++ m) ++ d) ++ b'-' ∷ []) ++ h) ++ b':' ∷ []) ++ mi) ++ b':' ∷ []) ++ s)
          ++ b'.' ∷ [])
        ++ ms
      ≡ (y ++ (m ++ d)) ++ b'-' ∷ (h ++ b':' ∷ (mi ++ b':' ∷ (s ++ b'.' ∷ ms)))
left_nested y m d h mi s ms = simp append_assoc

stamp-Writes :
    (y m d sod millis : ℕ)
    → y < 10_000
    → Writes (new 21) (stamp (pos y, m, d) sod millis) (stamp_text (y, m, d) sod millis)
unfolding stamp
stamp-Writes y m d sod millis hy =
    subst (Writes w₀ (pad w₉ millis 3))
      (left_nested (padded 4 (y % 10_000)) (padded 2 m) (padded 2 d) (padded 2 (sod / 3_600))
          (padded 2 (sod / 60 % 60)) (padded 2 (sod % 60)) (padded 3 millis)
        ∙ ap text_from (mod-eq_of_lt hy))
      (Writes-trans w₀ w₉ (pad w₉ millis 3) _ _
        (Writes-trans w₀ w₈ w₉ _ _
          (Writes-trans w₀ w₇ w₈ _ _
            (Writes-trans w₀ w₆ w₇ _ _
              (Writes-trans w₀ w₅ w₆ _ _
                (Writes-trans w₀ w₄ w₅ _ _
                  (Writes-trans w₀ w₃ w₄ _ _
                    (Writes-trans w₀ w₂' w₃ _ _
                      (Writes-trans w₀ w₂ w₂' _ _
                        (Writes-trans w₀ w₁ w₂ _ _ (pad-Writes w₀ (y % 10_000) 4)
                          (pad-Writes w₁ m 2))
                        (pad-Writes w₂ d 2))
                      (byte-Writes w₂' b'-'))
                    (pad-Writes w₃ (sod / 3_600) 2))
                  (byte-Writes w₄ b':'))
                (pad-Writes w₅ (sod / 60 % 60) 2))
              (byte-Writes w₆ b':'))
            (pad-Writes w₇ (sod % 60) 2))
          (byte-Writes w₈ b'.'))
        (pad-Writes w₉ millis 3))
  where
    text_from : ℕ → List ℕ
    text_from year = stamp_text (year, m, d) sod millis

    w₀ : Writer
    w₀ = new 21

    w₁ : Writer
    w₁ = pad w₀ (y % 10_000) 4

    w₂ : Writer
    w₂ = pad w₁ m 2

    w₂' : Writer
    w₂' = pad w₂ d 2

    w₃ : Writer
    w₃ = byte w₂' b'-'

    w₄ : Writer
    w₄ = pad w₃ (sod / 3_600) 2

    w₅ : Writer
    w₅ = byte w₄ b':'

    w₆ : Writer
    w₆ = pad w₅ (sod / 60 % 60) 2

    w₇ : Writer
    w₇ = byte w₆ b':'

    w₈ : Writer
    w₈ = pad w₇ (sod % 60) 2

    w₉ : Writer
    w₉ = byte w₈ b'.'

length-stamp_text :
    (y m d sod millis : ℕ)
    → y < 10_000
    → m < 100
    → d < 100
    → sod < 86_400
    → millis < 1_000
    → length (stamp_text (y, m, d) sod millis) ≡ 21
length-stamp_text y m d sod millis hy hm hd hs hms = omega (
  arith,
  length-append (date_text y m d) (b'-' ∷ time_text sod millis),
  length-date_text y m d hy hm hd,
  length-time_text sod millis hs hms,
)

stamp_lem :
    (y m d sod millis : ℕ)
    → y < 10_000
    → m < 100
    → d < 100
    → sod < 86_400
    → millis < 1_000
    → finish (stamp (pos y, m, d) sod millis) ≡ some (stamp_text (y, m, d) sod millis)
stamp_lem y m d sod millis hy hm hd hs hms =
    finish-new 21 _ _ (stamp-Writes y m d sod millis hy)
    ∙ ap (λ (n : ℕ). if leb n 21 then some (stamp_text (y, m, d) sod millis) else none)
        (length-stamp_text y m d sod millis hy hm hd hs hms)

-- Until the year 10,000 a date's year is that of its number, within a year.
year_low : (z day : ℕ) → 365 * z ≤ day_number z day + 719_469
year_low z day = omega arith

pub year_bound : (y m d : ℕ) → IsDate y m d → number (y, m, d) < 2_900_000 → y < 10_000
year_bound y m d v h = ground (arith, year_low (shifted_year y m) (day_of_year m d))

pub days_bound : (y m : ℕ) → month_length y m ≤ 31
days_bound y m = ground arith

-- The day, the second of the day and the millisecond of an instant.
abbrev pub day_of : ℕ → ℕ
day_of now = now / 1_000_000_000 / 86_400

abbrev pub instant_text : ℕ → List ℕ
instant_text now =
    stamp_text (nth_day (day_of now)) (now / 1_000_000_000 % 86_400)
      (now % 1_000_000_000 / 1_000_000)

pub sending_time_lem : (now : ℕ) → now < 2 ^ 64 → sending_time now ≡ instant_text now
unfolding sending_time
sending_time_lem now h =
    let (y, m, d) = nth_day (day_of now) in
    let v = nth_day-IsDate (day_of now) in
    ap (λ c. or_nothing (finish (stamp c sod millis)))
      (civil_from_days-nth_day (day_of now) (omega arith))
    ∙ ap or_nothing (
        stamp_lem y m d sod millis (year_bound y m d v (omega (arith, number-nth_day (day_of now))))
          (omega (arith, v)) (omega (arith, v, days_bound y m)) (omega arith) (omega arith))
  where
    sod : ℕ
    sod = now / 1_000_000_000 % 86_400

    millis : ℕ
    millis = now % 1_000_000_000 / 1_000_000
