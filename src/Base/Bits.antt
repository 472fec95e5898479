-- ===== src/Base/Bits.antt =====
-- `x & (2 ^ k - 1)` as a remainder, from the digits that the native operation stands for.
use Prim.Native.Nat.{
  ℕ, zero, suc, ◌+◌, ◌-◌, ◌*◌, ◌/◌, ◌%◌, ◌^◌, ◌≤◌, ◌<◌, min, bit_and, digits, bit_and-bitwise,
}
use mathlib.Core.Path.{◌≡◌, refl, sym, ◌∙◌, ap, ap₂}
use native.Mathlib.Nat.{
  pow-suc, pow-succ', one-le-pow, add-mul-mod_self_left, mod-eq_of_lt, div-add-mod, mod-lt,
  div-div-eq-div-mul,
}
use native.Mathlib.Omega.{arith}

abbrev and_with : ℕ → ℕ → ℕ → ℕ
and_with fuel a b = digits (λ _. zero) min fuel a b

-- The digits of `a` are used up after `a` rounds at most.
and_with-enough : (f g a b : ℕ) → a ≤ f → a ≤ g → and_with f a b ≡ and_with g a b
and_with-enough zero zero a b p q = refl
and_with-enough zero (suc g) zero b p q = refl
and_with-enough zero (suc g) (suc a) b p q = absurd (omega arith)
and_with-enough (suc f) zero zero b p q = refl
and_with-enough (suc f) zero (suc a) b p q = absurd (omega arith)
and_with-enough (suc f) (suc g) zero b p q = refl
and_with-enough (suc f) (suc g) (suc a) b p q =
    omega (arith, and_with-enough f g (suc a / 2) (b / 2) (omega arith) (omega arith))

bit_and-halve : (a b : ℕ) → bit_and a b ≡ bit_and (a / 2) (b / 2) * 2 + min (a % 2) (b % 2)
bit_and-halve zero b = omega (arith, bit_and-bitwise 0 b, bit_and-bitwise 0 (b / 2))
bit_and-halve (suc a) b = omega (
  arith,
  bit_and-bitwise (suc a) b,
  bit_and-bitwise (suc a / 2) (b / 2),
  and_with-enough a (suc a / 2) (suc a / 2) (b / 2) (omega arith) (omega arith),
)

pub bit_and_none : (f a : ℕ) → a ≤ f → bit_and a 0 ≡ 0
bit_and_none f zero h = omega (arith, bit_and-bitwise 0 0)
bit_and_none zero (suc a) h = absurd (omega arith)
bit_and_none (suc f) (suc a) h =
    omega (arith, bit_and-halve (suc a) 0, bit_and_none f (suc a / 2) (omega arith))

-- The remainder by `2 * p`, from that of the half by `p`.
mod-halve : (a p : ℕ) → 1 ≤ p → a % (2 * p) ≡ (a / 2 % p) * 2 + a % 2
mod-halve a p h =
    ap (λ x. x % (2 * p)) split
    ∙ add-mul-mod_self_left (a / 2 % p * 2 + a % 2) (2 * p) (a / 2 / p)
    ∙ mod-eq_of_lt (omega (arith, mod-lt (a / 2) {m = p} h))
  where
    split : a ≡ a / 2 % p * 2 + a % 2 + 2 * p * (a / 2 / p)
    split = omega (arith, div-add-mod (a / 2) p)

-- A mask of `k` low bits is the remainder by `2 ^ k`, at every width.
pub bit_and_mask : (k a : ℕ) → bit_and a (2 ^ k - 1) ≡ a % 2 ^ k
bit_and_mask zero a = omega (arith, bit_and_none a a (omega arith))
bit_and_mask (suc k) a =
    bit_and-halve a (2 ^ suc k - 1)
    ∙ omega (arith, ap (bit_and (a / 2)) half, bit_and_mask k (a / 2), odd)
    ∙ ap (λ m. a % m) (sym (pow-succ' 2 k))
  where
    half : (2 ^ suc k - 1) / 2 ≡ 2 ^ k - 1
    half = omega (arith, pow-suc 2 k, one-le-pow k 2)

    odd : min (a % 2) ((2 ^ suc k - 1) % 2) + (a / 2 % 2 ^ k) * 2 ≡ a % (2 * 2 ^ k)
    odd =
        omega
          (arith, pow-suc 2 k, one-le-pow k 2, mod-halve a (2 ^ k) (one-le-pow k 2 (omega arith)))

-- The low `j` digits and the others, apart.
pub bit_and_digits :
    (j a b : ℕ)
    → bit_and a b ≡ bit_and (a / 2 ^ j) (b / 2 ^ j) * 2 ^ j + bit_and (a % 2 ^ j) (b % 2 ^ j)
bit_and_digits zero a b =
    sym (ap (λ x. bit_and x (b / 1)) (whole a) ∙ ap (bit_and a) (whole b))
    ∙ omega (
      arith,
      ap (λ x. bit_and x (b % 1)) (none_left a) ∙ ap (bit_and 0) (none_left b),
      bit_and_none 0 0 (omega arith),
    )
  where
    whole : (a : ℕ) → a / 1 ≡ a
    whole a = omega arith

    none_left : (a : ℕ) → a % 1 ≡ 0
    none_left a = omega arith
bit_and_digits (suc j) a b =
    bit_and-halve a b
    ∙ omega (
      arith,
      bit_and_digits j (a / 2) (b / 2),
      bit_and-halve (a % 2 ^ suc j) (b % 2 ^ suc j),
      ap (λ x. bit_and x (b % 2 ^ suc j / 2)) (low a) ∙ ap (bit_and (a / 2 % 2 ^ j)) (low b),
      odd a,
      odd b,
      top,
    )
  where
    pos : 1 ≤ 2 ^ j
    pos = one-le-pow j 2 (omega arith)

    split : (a : ℕ) → a % 2 ^ suc j ≡ a / 2 % 2 ^ j * 2 + a % 2
    split a = ap (λ m. a % m) (pow-succ' 2 j) ∙ mod-halve a (2 ^ j) pos

    low : (a : ℕ) → a % 2 ^ suc j / 2 ≡ a / 2 % 2 ^ j
    low a = omega (arith, split a)

    odd : (a : ℕ) → a % 2 ^ suc j % 2 ≡ a % 2
    odd a = omega (arith, split a)

    high : (a : ℕ) → a / 2 ^ suc j ≡ a / 2 / 2 ^ j
    high a = ap (λ m. a / m) (pow-succ' 2 j) ∙ sym (div-div-eq-div-mul a 2 (2 ^ j))

    scale : (y p : ℕ) → y * (p * 2) ≡ y * p * 2
    scale y p = omega arith

    top :
        bit_and (a / 2 ^ suc j) (b / 2 ^ suc j) * 2 ^ suc j
        ≡ bit_and (a / 2 / 2 ^ j) (b / 2 / 2 ^ j) * 2 ^ j * 2
    top =
        ap₂ (λ x y. x * y) (ap₂ bit_and (high a) (high b)) (pow-suc 2 j)
        ∙ scale (bit_and (a / 2 / 2 ^ j) (b / 2 / 2 ^ j)) (2 ^ j)

-- A byte at a time.
pub bit_and_byte :
    (x y a b : ℕ)
    → x < 256
    → y < 256
    → bit_and (x + 256 * a) (y + 256 * b) ≡ bit_and x y + 256 * bit_and a b
bit_and_byte x y a b hx hy = omega (
  arith,
  bit_and_digits 8 (x + 256 * a) (y + 256 * b),
  ap₂ bit_and (tail x a hx) (tail y b hy),
  ap₂ bit_and (first x a hx) (first y b hy),
)
  where
    tail : (x a : ℕ) → x < 256 → (x + 256 * a) / 256 ≡ a
    tail x a h = omega arith

    first : (x a : ℕ) → x < 256 → (x + 256 * a) % 256 ≡ x
    first x a h = omega arith

bit_and_le_fuel : (f a b : ℕ) → a ≤ f → bit_and a b ≤ a
bit_and_le_fuel zero zero b h = omega (arith, bit_and-halve 0 b, bit_and-bitwise 0 b)
bit_and_le_fuel zero (suc a) b h = absurd (omega arith)
bit_and_le_fuel (suc f) zero b h = omega (arith, bit_and-bitwise 0 b)
bit_and_le_fuel (suc f) (suc a) b h =
    omega (arith, bit_and-halve (suc a) b, bit_and_le_fuel f (suc a / 2) (b / 2) (omega arith))

-- A mask adds nothing.
pub bit_and_le : (a b : ℕ) → bit_and a b ≤ a
bit_and_le a b = bit_and_le_fuel a a b (omega arith)
