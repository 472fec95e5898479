-- ===== src/Convert/Unsigned/Exact.antt =====
-- Up to nineteen digits are read as the number that they write.
use jeed.Base.{ℕ, zero, suc, ◌+◌, ◌-◌, ◌^◌, ◌≤◌, ◌<◌, ◌≡◌, refl, ap, subst, arith}
use jeed.Base.{List, [], ◌∷◌, length, take, drop, get_or, All, all, true, false}
use jeed.Base.{le→leb, lt→ltb, Result, ok, err, both_true, length-take, length-drop, drop-drop}
use jeed.Base.Bytes.{IsByte}
use jeed.Fix.TagValue.Digits.{is_digit, decimal_value, ten_pow}
use native.Mathlib.Nat.{mul-le-mul_right}
use jeed.Convert.Error.{ParseErr, overflow}
use jeed.Convert.Check.Borrows.{u16, u32, u64, u128}
use jeed.Convert.Unsigned.{
  checked_add, fifteen, nineteen, by_length, short_core, unsigned_decimal_core,
}
use jeed.Convert.Unsigned.{parse_decimal, signed_range}
use jeed.Convert.Unsigned.Words.{Converts, u8-Converts, word-Converts, two-Converts, three-Converts}
use jeed.Convert.Unsigned.Words.{decimal_value-cut, front, back, All-drop, all-drop, all-take}

pub decimal_value_lt : (bs : List ℕ) → all is_digit bs ≡ true → decimal_value bs < 10 ^ length bs
decimal_value_lt [] d = omega arith
decimal_value_lt (b ∷ bs) d = omega (
  arith,
  ten_pow (length bs),
  decimal_value_lt bs (both_true (is_digit b) (all is_digit bs) d).1,
  mul-le-mul_right (10 ^ length bs) (digit_le (both_true (is_digit b) (all is_digit bs) d).0),
)
  where
    digit_le : is_digit b ≡ true → b - 48 ≤ 9
    digit_le h = ground (arith, h)

module _ (n : ℕ) (u : List ℕ) (h : All IsByte u) (e : length u ≡ n)
    (d : all is_digit u ≡ true) where
  pub take_lt : (i : ℕ) → i ≤ n → decimal_value (take i u) < 10 ^ i
  take_lt i le =
      subst (λ k. decimal_value (take i u) < 10 ^ k) (omega (arith, length-take i u, e, le))
        (decimal_value_lt (take i u) (all-take i u d))

checked_add_ok :
    (a b v : ℕ) (f : ℕ → Result ParseErr ℕ) → a + b ≡ v → v < 2 ^ 64 → checked_add a b f ≡ f v
checked_add_ok a b v f e h = rw (e, lt→ltb v (2 ^ 64) h) refl

-- The value of a text of so many digits.
pub bounded : (n : ℕ) (u : List ℕ) → length u ≡ n → all is_digit u ≡ true → decimal_value u < 10 ^ n
bounded n u e d = subst (λ k. decimal_value u < 10 ^ k) e (decimal_value_lt u d)

fifteen-Converts : Converts 15 fifteen
unfolding fifteen
fifteen-Converts u h e d =
    rw
      (
        front 8 _ (word-Converts u64) 15 u h e (omega arith) d,
        front 4 _ (word-Converts u32) 7 (drop 8 u) (All-drop 8 u h)
            (omega (arith, length-drop 8 u, e)) (omega arith) (all-drop 8 u d),
        front 2 _ (word-Converts u16) 3 (drop 12 u) (All-drop 12 u h)
            (omega (arith, length-drop 12 u, e)) (omega arith) (all-drop 12 u d),
        back 1 _ u8-Converts 14 u h e d,
      )
      (checked_add_ok _ _ (decimal_value u) ok
        (omega (
          arith,
          take_lt 15 u h e d 8 (omega arith),
          decimal_value-cut 8 7 u (omega (arith, length-drop 8 u, e)),
          decimal_value-cut 4 3 (drop 8 u)
              (omega (arith, length-drop 4 (drop 8 u), length-drop 8 u, e)),
          decimal_value-cut 2 1 (drop 12 u)
              (omega (arith, length-drop 2 (drop 12 u), length-drop 12 u, e)),
          ap decimal_value (drop-drop 8 4 u),
          ap decimal_value (drop-drop 12 2 u),
        ))
        (omega (arith, bounded 15 u e d)))

nineteen-Converts : Converts 19 (nineteen false false)
unfolding nineteen signed_range
nineteen-Converts u h e d =
    rw
      (
        front 16 _ (word-Converts u128) 19 u h e (omega arith) d,
        front 2 _ (word-Converts u16) 3 (drop 16 u) (All-drop 16 u h)
            (omega (arith, length-drop 16 u, e)) (omega arith) (all-drop 16 u d),
        back 1 _ u8-Converts 18 u h e d,
      )
      (checked_add_ok _ _ (decimal_value u) ok
        (omega (
          arith,
          take_lt 19 u h e d 16 (omega arith),
          decimal_value-cut 16 3 u (omega (arith, length-drop 16 u, e)),
          decimal_value-cut 2 1 (drop 16 u)
              (omega (arith, length-drop 2 (drop 16 u), length-drop 16 u, e)),
          ap decimal_value (drop-drop 16 2 u),
        ))
        (omega (arith, bounded 19 u e d)))

-- The first `m` conversions are those of the lengths from `i` on.
abbrev Table : ℕ → ℕ → List (List ℕ → Result ParseErr ℕ) → Type 0
Table i zero fs = Unit
Table i (suc m) [] = Unit
Table i (suc m) (f ∷ fs) = Converts i f × Table (suc i) m fs

Table-Converts :
    (i m n : ℕ) (fs : List (List ℕ → Result ParseErr ℕ)) (other : List ℕ → Result ParseErr ℕ)
    → Table i m fs
    → n < m
    → m ≤ length fs
    → Converts (i + n) (get_or fs n other)
Table-Converts i zero n fs other t h le = absurd (omega arith)
Table-Converts i (suc m) n [] other t h le = absurd (omega arith)
Table-Converts i (suc m) zero (f ∷ fs) other t h le = subst (λ k. Converts k f) (omega arith) t.0
Table-Converts i (suc m) (suc n) (f ∷ fs) other t h le =
    subst (λ k. Converts k (get_or fs n other)) (omega arith)
      (Table-Converts (suc i) m n fs other t.1 (omega arith) (omega arith))

table : Table 1 19 (drop 1 (by_length false false))
table = (
  u8-Converts,
  (
    word-Converts u16,
    (
      two-Converts _ 2 _ 1 (word-Converts u16) u8-Converts,
      (
        word-Converts u32,
        (
          two-Converts _ 4 _ 1 (word-Converts u32) u8-Converts,
          (
            two-Converts _ 4 _ 2 (word-Converts u32) (word-Converts u16),
            (
              three-Converts _ 4 _ 2 _ 1 (word-Converts u32) (word-Converts u16) u8-Converts,
              (
                word-Converts u64,
                (
                  two-Converts _ 8 _ 1 (word-Converts u64) u8-Converts,
                  (
                    two-Converts _ 8 _ 2 (word-Converts u64) (word-Converts u16),
                    (
                      three-Converts _ 8 _ 2 _ 1 (word-Converts u64) (word-Converts u16)
                          u8-Converts,
                      (
                        two-Converts _ 8 _ 4 (word-Converts u64) (word-Converts u32),
                        (
                          three-Converts _ 8 _ 4 _ 1 (word-Converts u64) (word-Converts u32)
                              u8-Converts,
                          (
                            three-Converts _ 8 _ 4 _ 2 (word-Converts u64) (word-Converts u32)
                                (word-Converts u16),
                            (
                              fifteen-Converts,
                              (
                                word-Converts u128,
                                (
                                  two-Converts _ 16 _ 1 (word-Converts u128) u8-Converts,
                                  (
                                    two-Converts _ 16 _ 2 (word-Converts u128) (word-Converts u16),
                                    (nineteen-Converts, tt),
                                  ),
                                ),
                              ),
                            ),
                          ),
                        ),
                      ),
                    ),
                  ),
                ),
              ),
            ),
          ),
        ),
      ),
    ),
  ),
)

-- A text of one to nineteen digits and nothing else is parsed as the number that it writes.
pub parse_decimal-decimal_value :
    (u : List ℕ)
    → All IsByte u
    → 1 ≤ length u
    → length u ≤ 19
    → all is_digit u ≡ true
    → parse_decimal u ≡ ok (decimal_value u)
unfolding parse_decimal unsigned_decimal_core short_core
parse_decimal-decimal_value [] h some_digit few d = absurd (omega arith)
parse_decimal-decimal_value (b ∷ bs) h some_digit few d =
    rw (le→leb (length (b ∷ bs)) 20 (omega (arith, few))) (
      Table-Converts 1 19 (length bs) (drop 1 (by_length false false)) (λ u. err overflow) table
        (omega (arith, few)) (omega arith) (b ∷ bs) h (omega arith) d)
