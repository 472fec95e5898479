-- ===== src/Base/Bytes.antt =====
-- Bytes: what holds of each of the 256 by trying them, exclusive or, and big-endian integers.
use Prim.Native.Nat.{
  ℕ, zero, suc, ◌+◌, ◌*◌, ◌/◌, ◌%◌, ◌^◌, ◌≤◌, ◌<◌, bit_xor, bit_xor-bitwise, differ, digits,
}
use mathlib.Core.Path.{◌≡◌, refl, sym, ◌∙◌, ap}
use mathlib.Core.Bool.{Bool, true, ◌&&◌, true≢false}
use mathlib.Core.Logic.{inl, inr}
use mathlib.Core.List.{List, [], ◌∷◌}
use native.Mathlib.Omega.{arith}
use native.Mathlib.Nat.{
  pow-suc, one-le-pow, mul-le-mul_right, add-mul-mod_self_left, mod-eq_of_lt, div-add-mod, mod-lt,
}
use jeed.Base.Lists.{length}
use jeed.Base.Tests.{◌==◌, ==→eq, Bool-cases}

abbrev pub IsByte : ℕ → Type 0
IsByte b = b < 256

-- `p` holds below `n`.
abbrev pub all_below : ℕ → (ℕ → Bool) → Bool
all_below zero p = true
all_below (suc n) p = p n && all_below n p

pub all_below-at : (n : ℕ) (p : ℕ → Bool) → all_below n p ≡ true → (b : ℕ) → b < n → p b ≡ true
all_below-at zero p e b h = absurd (omega arith)
all_below-at (suc n) p e b h = elim (Bool-cases (b == n)) [
  | inl same ↦ rw (==→eq b n same) (both p n e).0
  | inr other ↦ all_below-at n p (both p n e).1 b (ground (arith, other))
]
  where
    both :
        (p : ℕ → Bool) (n : ℕ)
        → (p n && all_below n p) ≡ true
        → (p n ≡ true) × (all_below n p ≡ true)
    both p n e = elim (Bool-cases (p n)) [
      | inl y ↦ (y, sym (ap (λ x. x && all_below n p) y) ∙ e)
      | inr other ↦ absurd (true≢false (sym e ∙ ap (λ x. x && all_below n p) other))
    ]

-- The digits of `a` are used up after `a` rounds at most.
xor_with-enough :
    (f g a b : ℕ) → a ≤ f → a ≤ g → digits (λ b. b) differ f a b ≡ digits (λ b. b) differ g a b
xor_with-enough zero zero a b p q = refl
xor_with-enough zero (suc g) zero b p q = refl
xor_with-enough zero (suc g) (suc a) b p q = absurd (omega arith)
xor_with-enough (suc f) zero zero b p q = refl
xor_with-enough (suc f) zero (suc a) b p q = absurd (omega arith)
xor_with-enough (suc f) (suc g) zero b p q = refl
xor_with-enough (suc f) (suc g) (suc a) b p q =
    omega (arith, xor_with-enough f g (suc a / 2) (b / 2) (omega arith) (omega arith))

differ-mod2 : (m n : ℕ) → m < 2 → n < 2 → differ m n ≡ (m + n) % 2
differ-mod2 zero zero h k = refl
differ-mod2 zero (suc zero) h k = refl
differ-mod2 zero (suc (suc n)) h k = absurd (omega arith)
differ-mod2 (suc zero) zero h k = refl
differ-mod2 (suc zero) (suc zero) h k = refl
differ-mod2 (suc zero) (suc (suc n)) h k = absurd (omega arith)
differ-mod2 (suc (suc m)) n h k = absurd (omega arith)

pub bit_xor-halve : (a b : ℕ) → bit_xor a b ≡ bit_xor (a / 2) (b / 2) * 2 + (a + b) % 2
bit_xor-halve zero b = omega (arith, bit_xor-bitwise 0 b, bit_xor-bitwise 0 (b / 2))
bit_xor-halve (suc a) b = omega (
  arith,
  bit_xor-bitwise (suc a) b,
  bit_xor-bitwise (suc a / 2) (b / 2),
  xor_with-enough a (suc a / 2) (suc a / 2) (b / 2) (omega arith) (omega arith),
  differ-mod2 (suc a % 2) (b % 2) (omega arith) (omega arith),
)

xor_back : (f a b : ℕ) → a ≤ f → b ≤ f → bit_xor (bit_xor a b) b ≡ a
xor_back zero zero zero p q = refl
xor_back zero zero (suc b) p q = absurd (omega arith)
xor_back zero (suc a) b p q = absurd (omega arith)
xor_back (suc f) a b p q = omega (
  arith,
  bit_xor-halve (bit_xor a b) b,
  bit_xor-halve a b,
  ap (λ x. bit_xor x (b / 2)) half,
  xor_back f (a / 2) (b / 2) (omega arith) (omega arith),
)
  where
    half : bit_xor a b / 2 ≡ bit_xor (a / 2) (b / 2)
    half = omega (arith, bit_xor-halve a b)

-- Masking twice with one key is masking not at all.
pub bit_xor-bit_xor : (a b : ℕ) → bit_xor (bit_xor a b) b ≡ a
bit_xor-bit_xor a b = xor_back (a + b) a b (omega arith) (omega arith)

-- `from_be_bytes`, behind what is already read.
abbrev pub be_from : ℕ → List ℕ → ℕ
be_from acc [] = acc
be_from acc (b ∷ bs) = be_from (acc * 256 + b) bs

-- `to_be_bytes` at a width of `k` bytes.
abbrev pub be_bytes : ℕ → ℕ → List ℕ
be_bytes zero n = []
be_bytes (suc k) n = n / 256 ^ k % 256 ∷ be_bytes k n

-- A remainder by a product, in two digits.
pub mod_split : (n p c : ℕ) → 1 ≤ p → 1 ≤ c → n % (p * c) ≡ (n / p % c) * p + n % p
mod_split n p c hp hc =
    ap (λ x. x % (p * c)) split
    ∙ add-mul-mod_self_left (n / p % c * p + n % p) (p * c) (n / p / c)
    ∙ mod-eq_of_lt small
  where
    split : n ≡ n / p % c * p + n % p + p * c * (n / p / c)
    split = nlinear (n / p / c) (n / p % c) (n / p) (div-add-mod (n / p) c) (div-add-mod n p)
      where
        nlinear : (q r d : ℕ) → c * q + r ≡ d → p * d + n % p ≡ n → n ≡ r * p + n % p + p * c * q
        nlinear q r d e f = sym f ∙ ap (λ x. p * x + n % p) (sym e) ∙ omega arith

    small : n / p % c * p + n % p < p * c
    small = omega (
      arith,
      mod-lt n {m = p} hp,
      mul-le-mul_right {m = suc (n / p % c)} {n = c} p (mod-lt (n / p) {m = c} hc),
    )

pub be_from-be_bytes : (k acc n : ℕ) → be_from acc (be_bytes k n) ≡ acc * 256 ^ k + n % 256 ^ k
be_from-be_bytes zero acc n = omega arith
be_from-be_bytes (suc k) acc n =
    be_from-be_bytes k (acc * 256 + n / 256 ^ k % 256) n
    ∙ omega (
      arith,
      pow-suc 256 k,
      ap (λ x. n % x) (pow-suc 256 k),
      mod_split n (256 ^ k) 256 (one-le-pow k 256 (omega arith)) (omega arith),
      ap (λ x. acc * x) (pow-suc 256 k),
    )

pub length-be_bytes : (k n : ℕ) → length (be_bytes k n) ≡ k
length-be_bytes zero n = refl
length-be_bytes (suc k) n = omega (arith, length-be_bytes k n)
