-- ===== src/Convert/Bcd/Lanes.antt =====
-- A word as lanes, and what a mask keeps of them.
use Prim.Native.Nat.{bit_and}
use jeed.Base.{ℕ, ◌+◌, ◌-◌, ◌*◌, ◌/◌, ◌%◌, ◌^◌, ◌≤◌, ◌<◌, ◌≡◌, ap₂, ◌∙◌, arith}
use jeed.Base.{List, [], ◌∷◌, Bool, true, false, All, if◌then◌else◌}
use jeed.Base.Bits.{bit_and_mask, bit_and_digits, bit_and_none}
use native.Mathlib.Nat.{
  one-le-pow, mod-eq_of_lt, add-mul-mod_self_left, add-mul-div_left, div-eq_of_lt, pow-le-pow_right,
}

and_lane :
    (j x y a b : ℕ)
    → x < 2 ^ j
    → y < 2 ^ j
    → bit_and (x + 2 ^ j * a) (y + 2 ^ j * b) ≡ bit_and x y + 2 ^ j * bit_and a b
and_lane j x y a b hx hy =
    bit_and_digits j (x + 2 ^ j * a) (y + 2 ^ j * b)
    ∙ ap₂ (λ u v. u * 2 ^ j + v) (ap₂ bit_and (upper x a hx) (upper y b hy))
        (ap₂ bit_and (lower x a hx) (lower y b hy))
    ∙ omega arith
  where
    upper : (x a : ℕ) → x < 2 ^ j → (x + 2 ^ j * a) / 2 ^ j ≡ a
    upper x a h =
        add-mul-div_left x a (one-le-pow j 2 (omega arith))
        ∙ omega (arith, div-eq_of_lt {n = x} {m = 2 ^ j} h)

    lower : (x a : ℕ) → x < 2 ^ j → (x + 2 ^ j * a) % 2 ^ j ≡ x
    lower x a h = add-mul-mod_self_left x (2 ^ j) a ∙ mod-eq_of_lt h

-- Lanes of `j` bits, the lowest first, each with whether a mask keeps its `k` low bits.
abbrev pub lanes : ℕ → List (Bool × ℕ) → ℕ
lanes j [] = 0
lanes j ((keep, x) ∷ xs) = x + 2 ^ j * lanes j xs

abbrev pub mask : ℕ → ℕ → List (Bool × ℕ) → ℕ
mask j k [] = 0
mask j k ((keep, x) ∷ xs) = (if keep then 2 ^ k - 1 else 0) + 2 ^ j * mask j k xs

abbrev pub kept : ℕ → ℕ → List (Bool × ℕ) → ℕ
kept j k [] = 0
kept j k ((keep, x) ∷ xs) = (if keep then x % 2 ^ k else 0) + 2 ^ j * kept j k xs

pub bit_and-kept :
    (j k : ℕ) (xs : List (Bool × ℕ))
    → k ≤ j
    → All (λ l. l.1 < 2 ^ j) xs
    → bit_and (lanes j xs) (mask j k xs) ≡ kept j k xs
bit_and-kept j k [] le h = bit_and_none 0 0 (omega arith)
bit_and-kept j k ((true, x) ∷ xs) le h =
    and_lane j x (2 ^ k - 1) (lanes j xs) (mask j k xs) h.0 (
      omega (
        arith,
        pow-le-pow_right {n = 2} (omega arith) {i = k} {j = j} le,
        one-le-pow k 2 (omega arith),
      ))
    ∙ ap₂ (λ u v. u + 2 ^ j * v) (bit_and_mask k x) (bit_and-kept j k xs le h.1)
bit_and-kept j k ((false, x) ∷ xs) le h =
    and_lane j x 0 (lanes j xs) (mask j k xs) h.0 (one-le-pow j 2 (omega arith))
    ∙ ap₂ (λ u v. u + 2 ^ j * v) (bit_and_none x x (omega arith)) (bit_and-kept j k xs le h.1)
