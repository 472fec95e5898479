-- ===== src/Convert/Unsigned/Words.antt =====
-- Conversions of digits, a word at a time, put together.
use jeed.Base.{ℕ, zero, suc, ◌+◌, ◌-◌, ◌*◌, ◌^◌, ◌≤◌, ◌≡◌, refl, sym, ap, ap₂, subst, ◌∙◌, arith}
use jeed.Base.{List, [], ◌∷◌, ◌++◌, length, take, drop, slice, All, all, true}
use jeed.Base.{Result, ok, both_true}
use jeed.Base.{length-take, length-drop, length-append, drop-drop, take-append-drop, All-take}
use native.Mathlib.Nat.{suc-add}
use jeed.Base.Bytes.{IsByte}
use jeed.Fix.TagValue.Digits.{is_digit, decimal_value, ten_pow}
use jeed.Convert.Error.{ParseErr}
use jeed.Convert.Check.Borrows.{Width, u16, u32, u64, u128, bytes_in}
use jeed.Convert.Checked.Exact.{checked_conversion, checked_conversion-decimal_value}
use jeed.Convert.Checked.{checked_conversion_u8}
use jeed.Convert.Unsigned.{two, three}

abbrev pub Converts : ℕ → (List ℕ → Result ParseErr ℕ) → Type 0
Converts n f =
    (u : List ℕ) → All IsByte u → length u ≡ n → all is_digit u ≡ true → f u ≡ ok (decimal_value u)

pub u8-Converts : Converts 1 checked_conversion_u8
unfolding checked_conversion_u8
u8-Converts [] h e d = absurd (omega arith)
u8-Converts (b ∷ []) h e d = rw (both_true (is_digit b) true d).0 (ap ok (omega arith))
u8-Converts (b ∷ c ∷ u) h e d = absurd (omega arith)

pub word-Converts : (w : Width) → Converts (bytes_in w) (checked_conversion w)
word-Converts u16 [] h e d = absurd (omega arith)
word-Converts u32 [] h e d = absurd (omega arith)
word-Converts u64 [] h e d = absurd (omega arith)
word-Converts u128 [] h e d = absurd (omega arith)
word-Converts w (b ∷ bs) h e d = checked_conversion-decimal_value w b bs h e d

ten_pow_add : (a b : ℕ) → 10 ^ (a + b) ≡ 10 ^ a * 10 ^ b
ten_pow_add zero b = ap (λ n. 10 ^ n) none_more ∙ omega arith
  where
    none_more : 0 + b ≡ b
    none_more = omega arith
ten_pow_add (suc a) b =
    ap (λ n. 10 ^ n) (suc-add a b)
    ∙ ten_pow (a + b)
    ∙ ap (λ v. 10 * v) (ten_pow_add a b)
    ∙ omega (arith, ap (λ v. v * 10 ^ b) (ten_pow a))

decimal_value-append :
    (xs ys : List ℕ)
    → decimal_value (xs ++ ys) ≡ decimal_value xs * 10 ^ length ys + decimal_value ys
decimal_value-append [] ys = omega arith
decimal_value-append (x ∷ xs) ys =
    ap₂ (λ p v. (x - 48) * p + v)
      (ap (λ n. 10 ^ n) (length-append xs ys) ∙ ten_pow_add (length xs) (length ys))
      (decimal_value-append xs ys)
    ∙ factor (x - 48) (10 ^ length xs) (10 ^ length ys) (decimal_value xs) (decimal_value ys)
  where
    factor : (d p q v w : ℕ) → d * (p * q) + (v * q + w) ≡ (d * p + v) * q + w
    factor d p q v w = grind arith

pub All-drop : (i : ℕ) (u : List ℕ) → All IsByte u → All IsByte (drop i u)
All-drop zero u h = h
All-drop (suc i) [] h = tt
All-drop (suc i) (b ∷ u) h = All-drop i u h.1

pub all-take : (i : ℕ) (u : List ℕ) → all is_digit u ≡ true → all is_digit (take i u) ≡ true
all-take zero u d = refl
all-take (suc i) [] d = refl
all-take (suc i) (b ∷ u) d =
    let (digit, others) = both_true (is_digit b) (all is_digit u) d in
    rw digit (all-take i u others)

pub all-drop : (i : ℕ) (u : List ℕ) → all is_digit u ≡ true → all is_digit (drop i u) ≡ true
all-drop zero u d = d
all-drop (suc i) [] d = refl
all-drop (suc i) (b ∷ u) d = all-drop i u (both_true (is_digit b) (all is_digit u) d).1

-- A text cut in two.
pub decimal_value-cut :
    (i m : ℕ) (u : List ℕ)
    → length (drop i u) ≡ m
    → decimal_value (take i u) * 10 ^ m + decimal_value (drop i u) ≡ decimal_value u
decimal_value-cut i m u e =
    ap (λ k. decimal_value (take i u) * 10 ^ k + decimal_value (drop i u)) (sym e)
    ∙ sym (decimal_value-append (take i u) (drop i u))
    ∙ ap decimal_value (take-append-drop i u)

module _ (i : ℕ) (f : List ℕ → Result ParseErr ℕ) (c : Converts i f) where
  -- The front of a text, through the conversion of its length.
  pub front :
      (n : ℕ) (u : List ℕ)
      → All IsByte u
      → length u ≡ n
      → i ≤ n
      → all is_digit u ≡ true
      → f (take i u) ≡ ok (decimal_value (take i u))
  front n u h e le d =
      c (take i u) (All-take IsByte i u h) (omega (arith, length-take i u, e, le)) (all-take i u d)

  -- The back, from `j` on.
  pub back :
      (j : ℕ) (u : List ℕ)
      → All IsByte u
      → length u ≡ j + i
      → all is_digit u ≡ true
      → f (drop j u) ≡ ok (decimal_value (drop j u))
  back j u h e d =
      c (drop j u) (All-drop j u h) (omega (arith, length-drop j u, e)) (all-drop j u d)

pub two-Converts :
    (f : List ℕ → Result ParseErr ℕ) (i : ℕ) (g : List ℕ → Result ParseErr ℕ) (m : ℕ)
    → Converts i f
    → Converts m g
    → Converts (i + m) (two f i g (10 ^ m))
two-Converts f i g m c c' u h e d =
    rw (two, front i f c (i + m) u h e (omega arith) d, back m g c' i u h e d)
      (ap ok (decimal_value-cut i m u (omega (arith, length-drop i u, e))))

pub three-Converts :
    (f : List ℕ → Result ParseErr ℕ) (i : ℕ) (g : List ℕ → Result ParseErr ℕ) (k : ℕ)
    (h : List ℕ → Result ParseErr ℕ) (m : ℕ)
    → Converts i f
    → Converts k g
    → Converts m h
    → Converts (i + k + m) (three f i g (i + k) h (10 ^ (k + m)) (10 ^ m))
three-Converts f i g k h m c c' c'' u b e d =
    rw (three, front i f c (i + k + m) u b e (omega arith) d, middle, back m h c'' (i + k) u b e d)
      (ap ok (
        ap
          (λ v.
            decimal_value (take i u) * 10 ^ (k + m)
            + decimal_value (slice i (i + k) u) * 10 ^ m
            + v)
          (ap decimal_value (drop-drop i k u))
        ∙ inner
        ∙ decimal_value-cut i (k + m) u (omega (arith, length-drop i u, e))))
  where
    rest : List ℕ
    rest = drop i u

    minus : i + k - i ≡ k
    minus = omega arith

    middle : g (slice i (i + k) u) ≡ ok (decimal_value (slice i (i + k) u))
    middle =
        subst (λ n. g (take n rest) ≡ ok (decimal_value (take n rest))) (sym minus)
          (front k g c' (k + m) rest (All-drop i u b) (omega (arith, length-drop i u, e))
            (omega arith) (all-drop i u d))

    inner :
        decimal_value (take i u) * 10 ^ (k + m)
          + decimal_value (slice i (i + k) u) * 10 ^ m
          + decimal_value (drop k rest)
        ≡ decimal_value (take i u) * 10 ^ (k + m) + decimal_value rest
    inner = omega (
      arith,
      ap (λ n. decimal_value (take n rest) * 10 ^ m) minus,
      decimal_value-cut k m rest (omega (arith, length-drop k rest, length-drop i u, e)),
    )
