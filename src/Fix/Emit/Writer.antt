-- ===== src/Fix/Emit/Writer.antt =====
-- `Writer` and `write_sending_time` of crates/jeed-fix/src/recv/emit.rs. A buffer is its length and
-- what has been written to its front.
use jeed.Base.{
  ℕ, zero, suc, ◌+◌, ◌-◌, ◌/◌, ◌%◌, List, [], ◌∷◌, ◌++◌, Option, none, some, Bool, false,
}
use jeed.Base.{true, ltb, ◌==◌, if◌then◌else◌, length}
use jeed.Base.Ints.{ℤ, pos, negsuc}
use jeed.Fix.TagValue.{soh, equals}
use jeed.Fix.Time.Civil.{civil_from_days}

pub record Writer : Type 0 where
  pub room : ℕ
  pub written : List ℕ
  pub full : Bool

abbrev pub new : ℕ → Writer
new room = record { room = room; written = []; full = false }

unfoldable pub byte : Writer → ℕ → Writer
byte w b =
    if ltb (length w.written) w.room
    then record w { written = w.written ++ b ∷ [] }
    else record w { full = true }

unfoldable pub bytes : Writer → List ℕ → Writer
bytes w bs =
    if ltb w.room (length w.written + length bs)
    then record w { full = true }
    else record w { written = w.written ++ bs }

-- The first loop of `u64` and `pad`: the digits of `v`, the last first. A `u64` has twenty at most.
unfoldable pub low_digits : ℕ → ℕ → List ℕ
low_digits zero v = []
low_digits (suc k) v =
    let more = low_digits k (v / 10) in (b'0' + v % 10) ∷ (if v / 10 == 0 then [] else more)

-- `for i in (0..n).rev()`
unfoldable pub back_to_front : Writer → List ℕ → Writer
back_to_front w [] = w
back_to_front w (d ∷ ds) = byte (back_to_front w ds) d

unfoldable pub write_u64 : Writer → ℕ → Writer
unfolding low_digits
write_u64 w value = back_to_front w (low_digits 20 value)

-- `for _ in n..width`
unfoldable pub zeros : ℕ → Writer → Writer
zeros zero w = w
zeros (suc n) w = zeros n (byte w b'0')

unfoldable pub pad : Writer → ℕ → ℕ → Writer
unfolding low_digits
pad w value width =
    let digits = low_digits 20 value in back_to_front (zeros (width - length digits) w) digits

unfoldable pub tag : Writer → ℕ → List ℕ → Writer
tag w t value = byte (bytes (byte (write_u64 w t) equals) value) soh

unfoldable pub tag_u64 : Writer → ℕ → ℕ → Writer
tag_u64 w t value = byte (write_u64 (byte (write_u64 w t) equals) value) soh

-- `finish`: what was written, if nothing was dropped. The callers take the number of bytes and read
-- them from the buffer.
abbrev pub finish : Writer → Option (List ℕ)
finish w = if w.full then none else some w.written

-- `y.rem_euclid(10_000)`
abbrev pub four_digits : ℤ → ℕ
four_digits (pos y) = y % 10_000
four_digits (negsuc n) = 9_999 - n % 10_000

-- On the year, month and day, the seconds of the day and the milliseconds.
unfoldable pub stamp : ℤ × ℕ × ℕ → ℕ → ℕ → Writer
stamp (y, m, d) sod millis =
    let date = byte (pad (pad (pad (new 21) (four_digits y) 4) m 2) d 2) b'-' in
    let hours = byte (pad date (sod / 3_600) 2) b':' in
    let minutes = byte (pad hours (sod / 60 % 60) 2) b':' in
    let seconds = byte (pad minutes (sod % 60) 2) b'.' in pad seconds millis 3

abbrev pub or_nothing : Option (List ℕ) → List ℕ
or_nothing none = []
or_nothing (some bs) = bs

-- `write_sending_time`, and the slice that its callers take of the result.
unfoldable pub sending_time : ℕ → List ℕ
unfolding stamp
sending_time now =
    let secs = now / 1_000_000_000 in
    let millis = now % 1_000_000_000 / 1_000_000 in
    or_nothing (finish (stamp (civil_from_days (pos (secs / 86_400))) (secs % 86_400) millis))
