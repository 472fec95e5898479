-- ===== src/Convert/Check/Borrows.antt =====
-- What the subtractions of the check leave in each byte, borrows included.
use Prim.Native.Nat.{bit_and}
use jeed.Base.{ℕ, zero, suc, ◌+◌, ◌-◌, ◌*◌, ◌/◌, ◌%◌, ◌^◌, ◌<◌, ◌≡◌, refl, ap, ◌∙◌, arith}
use jeed.Base.{
  List, [], ◌∷◌, length, All, all, Bool, true, false, ◌&&◌, ◌==◌, leb, ltb, if◌then◌else◌,
}
use jeed.Base.{ap₂, inl, inr, Bool-cases, lt→ltb, ==→eq, subst}
use jeed.Base.Bytes.{IsByte, all_below-at}
use jeed.Base.Bits.{bit_and_byte, bit_and_digits, bit_and_le}
use jeed.Fix.TagValue.Digits.{is_digit}
use jeed.Convert.Check.{wrapping_sub, check_decimal_bit_u16_optimal, check_decimal_bit_u32_optimal}
use jeed.Convert.Check.{check_decimal_bit_u64_optimal, check_decimal_bit_u128_optimal}
use native.Mathlib.Nat.{pow-suc, pow-succ', mod-eq_of_lt, add-mul-mod_self_left}

-- `from_le_bytes`
abbrev pub le_value : List ℕ → ℕ
le_value [] = 0
le_value (b ∷ bs) = b + 256 * le_value bs

-- A byte repeated `k` times.
abbrev repeated : ℕ → ℕ → ℕ
repeated b zero = 0
repeated b (suc k) = b + 256 * repeated b k

-- `x - y - c` below a modulus `p`.
abbrev sub_borrow : ℕ → ℕ → ℕ → ℕ → ℕ
sub_borrow p x y c = if ltb x (y + c) then x + p - y - c else x - y - c

wrapping_sub-sub_borrow :
    (w x y : ℕ) → x < 2 ^ w → y < 2 ^ w → wrapping_sub w x y ≡ sub_borrow (2 ^ w) x y 0
wrapping_sub-sub_borrow w x y hx hy = elim (Bool-cases (ltb x (y + 0))) [
  | inl below ↦ rw below (mod-eq_of_lt (ground (arith, below)) ∙ omega arith)
  | inr above ↦ rw above (
      ap (λ z. z % 2 ^ w) (ground (arith, above))
      ∙ add-mul-mod_self_left (x - y) (2 ^ w) 1
      ∙ mod-eq_of_lt (omega arith)
      ∙ omega arith)
]

-- The lowest byte of a difference, and the borrow that it leaves.
sub_borrow-byte :
    (p b r d m c : ℕ)
    → IsByte b
    → IsByte d
    → c < 2
    → r < p
    → m < p
    → sub_borrow (256 * p) (b + 256 * r) (d + 256 * m) c
      ≡ (b + 256 - d - c) % 256 + 256 * sub_borrow p r m (if ltb b (d + c) then 1 else 0)
sub_borrow-byte p b r d m c hb hd hc hr hm = ground arith

-- The top bit of a byte.
top_bit : (z : ℕ) → IsByte z → bit_and z 128 ≡ (if leb 128 z then 128 else 0)
top_bit z h =
    ==→eq _ _ (all_below-at 256 (λ z. bit_and z 128 == (if leb 128 z then 128 else 0)) refl z h)

top_bit-bit_and :
    (x y : ℕ)
    → IsByte x
    → IsByte y
    → IsByte (bit_and x y) × (leb 128 (bit_and x y) ≡ (leb 128 x && leb 128 y))
top_bit-bit_and x y hx hy = (
  omega (arith, bit_and_le x y),
  elim (Bool-cases (leb 128 x)) [
    | inl u ↦ elim (Bool-cases (leb 128 y)) [
      | inl v ↦ rw (u, v) (ground (arith, split, low, ap₂ bit_and (upper x hx u) (upper y hy v)))
      | inr v ↦ rw (u, v) (ground (arith, split, low, ap₂ bit_and (upper x hx u) (lower y v)))
    ]
    | inr u ↦ rw u (
        ground
          (arith, split, low, ap (λ z. bit_and z (y / 128)) (lower x u), bit_and_le 0 (y / 128)))
  ],
)
  where
    split : bit_and x y ≡ bit_and (x / 128) (y / 128) * 128 + bit_and (x % 128) (y % 128)
    split = bit_and_digits 7 x y

    low : bit_and (x % 128) (y % 128) < 128
    low = omega (arith, bit_and_le (x % 128) (y % 128))

    upper : (x : ℕ) → IsByte x → leb 128 x ≡ true → x / 128 ≡ 1
    upper x h u = ground (arith, u)

    lower : (x : ℕ) → leb 128 x ≡ false → x / 128 ≡ 0
    lower x u = ground (arith, u)

-- The top bits of the lowest bytes, and those of the others.
mask_step :
    (x y a b m : ℕ)
    → IsByte x
    → IsByte y
    → (bit_and (bit_and (x + 256 * a) (y + 256 * b)) (128 + 256 * m) == (128 + 256 * m))
      ≡ ((leb 128 x && leb 128 y) && (bit_and (bit_and a b) m == m))
mask_step x y a b m hx hy =
    ap (λ v. v == (128 + 256 * m)) bytes
    ∙ compared (leb 128 x && leb 128 y) (bit_and (bit_and a b) m)
  where
    both : IsByte (bit_and x y) × (leb 128 (bit_and x y) ≡ (leb 128 x && leb 128 y))
    both = top_bit-bit_and x y hx hy

    flag : bit_and (bit_and x y) 128 ≡ (if leb 128 x && leb 128 y then 128 else 0)
    flag = top_bit (bit_and x y) both.0 ∙ ap (λ t. if t then 128 else 0) both.1

    bytes :
        bit_and (bit_and (x + 256 * a) (y + 256 * b)) (128 + 256 * m)
        ≡ (if leb 128 x && leb 128 y then 128 else 0) + 256 * bit_and (bit_and a b) m
    bytes =
        ap (λ z. bit_and z (128 + 256 * m)) (bit_and_byte x y a b hx hy)
        ∙ bit_and_byte (bit_and x y) 128 (bit_and a b) m both.0 (omega arith)
        ∙ ap (λ z. z + 256 * bit_and (bit_and a b) m) flag

    compared :
        (t : Bool) (w : ℕ)
        → (((if t then 128 else 0) + 256 * w) == (128 + 256 * m)) ≡ (t && (w == m))
    compared true w = ground arith
    compared false w = ground arith

repeated_lt : (d k : ℕ) → IsByte d → repeated d k < 256 ^ k
repeated_lt d zero h = omega arith
repeated_lt d (suc k) h = omega (arith, repeated_lt d k h, pow-suc 256 k)

le_value_lt : (bs : List ℕ) → All IsByte bs → le_value bs < 256 ^ length bs
le_value_lt [] h = omega arith
le_value_lt (b ∷ bs) h = omega (arith, h.0, le_value_lt bs h.1, pow-suc 256 (length bs))

-- The whole test on `k` bytes, borrows coming in.
abbrev accepts : ℕ → ℕ → ℕ → ℕ → Bool
accepts k c e chunk =
    bit_and
      (bit_and (sub_borrow (256 ^ k) chunk (repeated 0x3A k) c)
        (sub_borrow (256 ^ k) (repeated 0x2F k) chunk e))
      (repeated 0x80 k)
    == repeated 0x80 k

accepts-byte :
    (k b r c e : ℕ)
    → IsByte b
    → r < 256 ^ k
    → c < 2
    → e < 2
    → accepts (suc k) c e (b + 256 * r) ≡ (
        (leb 128 ((b + 256 - 58 - c) % 256) && leb 128 ((47 + 256 - b - e) % 256))
        && accepts k (if ltb b (58 + c) then 1 else 0) (if ltb 47 (b + e) then 1 else 0) r)
accepts-byte k b r c e hb hr hc he =
    ap
      (λ p.
        bit_and
          (bit_and (sub_borrow p (b + 256 * r) (repeated 0x3A (suc k)) c)
            (sub_borrow p (repeated 0x2F (suc k)) (b + 256 * r) e))
          (repeated 0x80 (suc k))
        == repeated 0x80 (suc k))
      (pow-succ' 256 k)
    ∙ rw
        (
          sub_borrow-byte (256 ^ k) b r 0x3A (repeated 0x3A k) c hb (omega arith) hc hr
              (repeated_lt 0x3A k (omega arith)),
          sub_borrow-byte (256 ^ k) 0x2F (repeated 0x2F k) b r e (omega arith) hb he
              (repeated_lt 0x2F k (omega arith)) hr,
        )
        (mask_step _ _ _ _ (repeated 0x80 k) (omega arith) (omega arith))

-- A digit, or the character before `0` or behind `9`.
abbrev pub is_near_digit : ℕ → Bool
is_near_digit b = leb 0x2F b && leb b 0x3A

-- Behind an accepted byte both subtractions borrow.
borrowed :
    (k b r c e : ℕ) (q t : Bool)
    → (q ≡ true → b < 58 + c)
    → (q ≡ true → 47 < b + e)
    → accepts k 1 1 r ≡ t
    → (q && accepts k (if ltb b (58 + c) then 1 else 0) (if ltb 47 (b + e) then 1 else 0) r)
      ≡ (q && t)
borrowed k b r c e true t h₁ h₂ rest =
    rw (lt→ltb b (58 + c) (h₁ refl), lt→ltb 47 (b + e) (h₂ refl)) rest
borrowed k b r c e false t h₁ h₂ rest = refl

accepts-near :
    (bs : List ℕ) → All IsByte bs → accepts (length bs) 1 1 (le_value bs) ≡ all is_near_digit bs
accepts-near [] h = refl
accepts-near (b ∷ bs) h =
    accepts-byte (length bs) b (le_value bs) 1 1 h.0 (le_value_lt bs h.1) (omega arith)
      (omega arith)
    ∙ rw low (
        borrowed (length bs) b (le_value bs) 1 1 (is_near_digit b) (all is_near_digit bs)
          (λ near. ground (arith, near)) (λ near. ground (arith, near)) (accepts-near bs h.1))
  where
    low :
        (leb 128 ((b + 256 - 58 - 1) % 256) && leb 128 ((47 + 256 - b - 1) % 256)) ≡ is_near_digit b
    low = ground (arith, h.0)

accepts-first :
    (b : ℕ) (bs : List ℕ)
    → All IsByte (b ∷ bs)
    → accepts (length (b ∷ bs)) 0 0 (le_value (b ∷ bs)) ≡ (is_digit b && all is_near_digit bs)
accepts-first b bs h =
    accepts-byte (length bs) b (le_value bs) 0 0 h.0 (le_value_lt bs h.1) (omega arith)
      (omega arith)
    ∙ rw low (
        borrowed (length bs) b (le_value bs) 0 0 (is_digit b) (all is_near_digit bs)
          (λ digit. ground (arith, digit)) (λ digit. ground (arith, digit)) (accepts-near bs h.1))
  where
    low : (leb 128 ((b + 256 - 58 - 0) % 256) && leb 128 ((47 + 256 - b - 0) % 256)) ≡ is_digit b
    low = ground (arith, h.0)

-- The four widths of a word, and the check of each.
pub data Width : Type 0 where
  u16 u32 u64 u128 : Width

abbrev pub bytes_in : Width → ℕ
bytes_in u16 = 2
bytes_in u32 = 4
bytes_in u64 = 8
bytes_in u128 = 16

abbrev pub check_decimal_bit : Width → ℕ → Bool
check_decimal_bit u16 = check_decimal_bit_u16_optimal
check_decimal_bit u32 = check_decimal_bit_u32_optimal
check_decimal_bit u64 = check_decimal_bit_u64_optimal
check_decimal_bit u128 = check_decimal_bit_u128_optimal

check_decimal_bit-accepts :
    (w : Width) (chunk : ℕ)
    → chunk < 256 ^ bytes_in w
    → check_decimal_bit w chunk ≡ accepts (bytes_in w) 0 0 chunk
unfolding check_decimal_bit_u16_optimal check_decimal_bit_u32_optimal check_decimal_bit_u64_optimal
    check_decimal_bit_u128_optimal
check_decimal_bit-accepts u16 x h =
    rw
      (
        wrapping_sub-sub_borrow 16 x 0x3A3A h (omega arith),
        wrapping_sub-sub_borrow 16 0x2F2F x (omega arith) h,
      )
      refl
check_decimal_bit-accepts u32 x h =
    rw
      (
        wrapping_sub-sub_borrow 32 x 0x3A3A3A3A h (omega arith),
        wrapping_sub-sub_borrow 32 0x2F2F2F2F x (omega arith) h,
      )
      refl
check_decimal_bit-accepts u64 x h =
    rw
      (
        wrapping_sub-sub_borrow 64 x 0x3A3A3A3A3A3A3A3A h (omega arith),
        wrapping_sub-sub_borrow 64 0x2F2F2F2F2F2F2F2F x (omega arith) h,
      )
      refl
check_decimal_bit-accepts u128 x h =
    rw
      (
        wrapping_sub-sub_borrow 128 x 0x3A3A3A3A3A3A3A3A3A3A3A3A3A3A3A3A h (omega arith),
        wrapping_sub-sub_borrow 128 0x2F2F2F2F2F2F2F2F2F2F2F2F2F2F2F2F x (omega arith) h,
      )
      refl

-- On the bytes of a text, the first lowest in the word, the check of each width accepts exactly these:
-- the first byte is a digit, and each other byte is a digit, `/` or `:`.
pub check_decimal_bit_lem :
    (w : Width) (b : ℕ) (bs : List ℕ)
    → All IsByte (b ∷ bs)
    → length (b ∷ bs) ≡ bytes_in w
    → check_decimal_bit w (le_value (b ∷ bs)) ≡ (is_digit b && all is_near_digit bs)
check_decimal_bit_lem w b bs h e =
    check_decimal_bit-accepts w (le_value (b ∷ bs))
      (subst (λ k. le_value (b ∷ bs) < 256 ^ k) e (le_value_lt (b ∷ bs) h))
    ∙ subst (λ k. accepts k 0 0 (le_value (b ∷ bs)) ≡ (is_digit b && all is_near_digit bs)) e
        (accepts-first b bs h)
