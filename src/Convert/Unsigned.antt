-- ===== src/Convert/Unsigned.antt =====
-- `u64` of crates/jeed-convert/src/integer_parser/unsigned_decimal.rs: a text cut into words of sixteen,
-- eight, four, two and one bytes, by its length. What cannot reach 2 ^ 64 is written plain.
pub mod Words
pub mod Exact
pub mod Wraps
use jeed.Base.{
  ℕ, zero, suc, ◌+◌, ◌-◌, ◌*◌, ◌/◌, ◌%◌, ◌^◌, List, [], ◌∷◌, Bool, true, false, ◌&&◌, ◌==◌,
}
use jeed.Base.{ltb, leb, if◌then◌else◌, length, take, drop, slice, get_or, Result, ok, err, ◌>>=◌}
use jeed.Convert.Error.{ParseErr, empty, overflow, neg_overflow}
use jeed.Convert.Checked.{checked_conversion_u8, checked_conversion_u16, checked_conversion_u32}
use jeed.Convert.Checked.{checked_conversion_u64, checked_conversion_u128}

abbrev Conversion : Type 0
Conversion = List ℕ → Result ParseErr ℕ

-- `checked_add(…)`, and what is made of it.
abbrev pub checked_add : ℕ → ℕ → (ℕ → Result ParseErr ℕ) → Result ParseErr ℕ
checked_add a b f = if ltb (a + b) (2 ^ 64) then f (a + b) else err overflow

-- The checks for a sign.
unfoldable pub signed_range : Bool → Bool → ℕ → Result ParseErr ℕ
signed_range neg_max_check pos_max_check res =
    if neg_max_check && ltb 9223372036854775808 res
    then err neg_overflow
    else (if pos_max_check && ltb 9223372036854775807 res then err overflow else ok res)

-- Words at the cuts, and their weights.
abbrev pub two : Conversion → ℕ → Conversion → ℕ → Conversion
two f i g s u = do
  upper_chunk ← f (take i u)
  lower_chunk ← g (drop i u)
  ok (upper_chunk * s + lower_chunk)

abbrev pub three : Conversion → ℕ → Conversion → ℕ → Conversion → ℕ → ℕ → Conversion
three f i g j h s t u = do
  upper_chunk ← f (take i u)
  mid_chunk ← g (slice i j u)
  lower_chunk ← h (drop j u)
  ok (upper_chunk * s + mid_chunk * t + lower_chunk)

-- Fifteen bytes.
unfoldable pub fifteen : Conversion
fifteen u = do
  upper_chunk ← checked_conversion_u64 (take 8 u)
  mid_chunk ← checked_conversion_u32 (slice 8 12 u)
  lower_chunk ← checked_conversion_u16 (slice 12 14 u)
  last_chunk ← checked_conversion_u8 (drop 14 u)
  checked_add (upper_chunk * 10000000 % 2 ^ 64) (last_chunk + lower_chunk * 10 + mid_chunk * 1000)
      ok

unfoldable pub nineteen : Bool → Bool → Conversion
nineteen neg_max_check pos_max_check u = do
  upper_chunk ← checked_conversion_u128 (take 16 u)
  mid_chunk ← checked_conversion_u16 (slice 16 18 u)
  lower_chunk ← checked_conversion_u8 (drop 18 u)
  checked_add (upper_chunk % 2 ^ 64 * 1000) (lower_chunk + mid_chunk * 10)
      (signed_range neg_max_check pos_max_check)

unfoldable pub twenty : Bool → Bool → Conversion
twenty neg_max_check pos_max_check u = do
  upper_chunk ← checked_conversion_u128 (take 16 u)
  lower_chunk ← checked_conversion_u32 (drop 16 u)
  checked_add (upper_chunk % 2 ^ 64 * 10000 % 2 ^ 64) lower_chunk
      (signed_range neg_max_check pos_max_check)

-- The `match` on the length, from 0 to 20.
abbrev pub by_length : Bool → Bool → List Conversion
by_length neg pos =
    (λ u. err empty)
    ∷ checked_conversion_u8
    ∷ checked_conversion_u16
    ∷ two checked_conversion_u16 2 checked_conversion_u8 10
    ∷ checked_conversion_u32
    ∷ two checked_conversion_u32 4 checked_conversion_u8 10
    ∷ two checked_conversion_u32 4 checked_conversion_u16 100
    ∷ three checked_conversion_u32 4 checked_conversion_u16 6 checked_conversion_u8 1000 10
    ∷ checked_conversion_u64
    ∷ two checked_conversion_u64 8 checked_conversion_u8 10
    ∷ two checked_conversion_u64 8 checked_conversion_u16 100
    ∷ three checked_conversion_u64 8 checked_conversion_u16 10 checked_conversion_u8 1000 10
    ∷ two checked_conversion_u64 8 checked_conversion_u32 10000
    ∷ three checked_conversion_u64 8 checked_conversion_u32 12 checked_conversion_u8 100000 10
    ∷ three checked_conversion_u64 8 checked_conversion_u32 12 checked_conversion_u16 1000000 100
    ∷ fifteen
    ∷ checked_conversion_u128
    ∷ two checked_conversion_u128 16 checked_conversion_u8 10
    ∷ two checked_conversion_u128 16 checked_conversion_u16 100
    ∷ nineteen neg pos
    ∷ twenty neg pos
    ∷ []

unfoldable pub short_core : Bool → Bool → Conversion
short_core neg_max_check pos_max_check u =
    get_or (by_length neg_max_check pos_max_check) (length u) (λ u. err overflow) u

-- The loop over leading zeros.
abbrev pub without_zeros : List ℕ → List ℕ
without_zeros [] = []
without_zeros (b ∷ bs) = if b == b'0' then without_zeros bs else b ∷ bs

-- `u64::unsigned_decimal_core`; the recursive call is on twenty bytes at most.
unfoldable pub unsigned_decimal_core : Bool → Bool → Conversion
unsigned_decimal_core neg_max_check pos_max_check u =
    if leb (length u) 20
    then short_core neg_max_check pos_max_check u
    else (let rest = without_zeros u in
        if ltb 20 (length rest) then err overflow else short_core neg_max_check pos_max_check rest)

-- `Biscuit::parse_decimal`
unfoldable pub parse_decimal : Conversion
parse_decimal u = unsigned_decimal_core false false u
