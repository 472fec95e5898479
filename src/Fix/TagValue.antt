-- ===== src/Fix/TagValue.antt =====
-- crates/jeed-fix/src/tagvalue.rs: `tag=value<SOH>` scanning and the value parsers.
-- A byte is a number below 256, a slice a list of bytes.
pub mod Digits
pub mod Numeral
pub mod Scan
use jeed.Base.{ℕ, zero, suc, ◌+◌, ◌-◌, ◌*◌, ◌%◌, ◌^◌, List, [], ◌∷◌, Option, none, some, Bool, ◌||◌}
use jeed.Base.{ltb, ◌==◌, if◌then◌else◌, length, take, drop, position}
use jeed.Base.Options.{◌>>=◌}
use jeed.Base.{Result, ok, err}
use jeed.Fix.Error.{FixError}

-- The field separator, `SOH`.
abbrev pub soh : ℕ
soh = 1

abbrev pub equals : ℕ
equals = b'='

-- `b.wrapping_sub(b'0')`
abbrev pub digit_of : ℕ → ℕ
digit_of b = (b + 256 - b'0') % 256

-- The loop of `parse_u64`, with `v` read so far.
unfoldable pub parse_digits : ℕ → List ℕ → Option ℕ
parse_digits v [] = some v
parse_digits v (b ∷ bs) =
    let rest = parse_digits ((v * 10 + digit_of b) % 2 ^ 64) bs in
    if ltb 9 (digit_of b) then none else rest

unfoldable pub parse_u64 : List ℕ → Option ℕ
unfolding parse_digits
parse_u64 bytes = if length bytes == 0 || ltb 19 (length bytes) then none else parse_digits 0 bytes

-- `u32::try_from(v).ok()`
abbrev pub to_u32 : ℕ → Option ℕ
to_u32 v = if ltb v (2 ^ 32) then some v else none

pub record Field : Type 0 where
  pub tag : ℕ
  pub value : List ℕ

abbrev pub is_equals : ℕ → Bool
is_equals b = b == equals

abbrev pub is_soh : ℕ → Bool
is_soh b = b == soh

-- What follows a tag of `eq` bytes that reads as `tag`.
unfoldable pub split_value : ℕ → ℕ → List ℕ → Option (Field × ℕ)
split_value eq tag after = do
  end ← position is_soh after
  some (record { tag = tag; value = take end after }, eq + 1 + end + 1)

unfoldable pub split_field : List ℕ → Option (Field × ℕ)
split_field bytes = do
  eq ← position is_equals bytes
  if eq == 0 || ltb 10 eq then none else do
    n ← parse_u64 (take eq bytes)
    tag ← to_u32 n
    split_value eq tag (drop (eq + 1) bytes)

-- The iterator: the body, and the offset of the next unread field.
pub record Fields : Type 0 where
  pub body : List ℕ
  pub pos : ℕ

abbrev pub new : List ℕ → Fields
new body = record { body = body; pos = 0 }

-- `&self.body[self.pos.min(self.body.len())..]`: `drop` stops at the end too.
abbrev pub rest : Fields → List ℕ
rest f = drop f.pos f.body

-- `start as u32`
abbrev pub as_u32 : ℕ → ℕ
as_u32 n = n % 2 ^ 32

unfoldable pub advance : Fields → Option (Field × ℕ) → Option (Result FixError Field) × Fields
advance f (some (field, consumed)) = (some (ok field), record f { pos = f.pos + consumed })
advance f none = (some (err (FixError.field (as_u32 f.pos))), record f { pos = length f.body })

-- `Iterator::next`
unfoldable pub next : Fields → Option (Result FixError Field) × Fields
next f = if length (rest f) == 0 then (none, f) else advance f (split_field (rest f))

-- `for field in fields`: the items up to the end, at most `fuel` of them.
unfoldable pub collect : ℕ → Fields → List (Result FixError Field)
collect zero f = []
collect (suc fuel) f =
    let (item, f') = next f in elim item [ none ↦ [] | some r ↦ r ∷ collect fuel f' ]

-- Each item but the last takes a byte at least, so these are all.
unfoldable pub fields : List ℕ → List (Result FixError Field)
fields body = collect (suc (length body)) (new body)
