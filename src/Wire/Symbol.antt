-- ===== src/Wire/Symbol.antt =====
-- Symbols, padded and back.
use jeed.Base.{ℕ, zero, suc, ◌-◌, ◌≤◌, ◌≡◌, refl, ap, arith, List, [], ◌∷◌, ◌++◌, some}
use jeed.Base.{false, le→ltb, ◌==◌, All, length, length-append, replicate, take_append_len}
use jeed.Wire.Types.{fill_symbol, symbol_from_bytes, used_len, symbol_bytes}

abbrev pub IsUsed : ℕ → Type 0
IsUsed b = (b == 0) ≡ false

fill_symbol_lem :
    (room : ℕ) (bs : List ℕ)
    → All IsUsed bs
    → length bs ≤ room
    → fill_symbol room bs ≡ some (bs ++ replicate (room - length bs) 0)
unfolding fill_symbol
fill_symbol_lem room [] h fits = ap (λ (n : ℕ). some (replicate n 0)) (omega arith)
fill_symbol_lem room (b ∷ bs) h fits =
    rw (h.0, fill_symbol_lem (room - 1) bs h.1 (omega (arith, fits)))
      (ap (λ (n : ℕ). some (b ∷ (bs ++ replicate n 0))) (omega (arith, fits)))

length-replicate : (n b : ℕ) → length (replicate n b) ≡ n
length-replicate zero b = refl
length-replicate (suc n) b = omega (arith, length-replicate n b)

used_len-replicate : (n : ℕ) → used_len (replicate n 0) ≡ 0
unfolding used_len
used_len-replicate zero = refl
used_len-replicate (suc n) = rw (used_len-replicate n) refl

used_len-append : (bs : List ℕ) (n : ℕ) → All IsUsed bs → used_len (bs ++ replicate n 0) ≡ length bs
unfolding used_len
used_len-append [] n h = used_len-replicate n
used_len-append (b ∷ bs) n h = rw (used_len-append bs n h.1, h.0) (ground arith)

some_length : (n : ℕ) → 1 ≤ n → (n == 0) ≡ false
some_length n h = ground arith

-- A symbol of 1 to 24 bytes, none of them zero, is padded to 24 bytes, and read back without its padding.
pub symbol_bytes-symbol_from_bytes :
    (bs : List ℕ)
    → All IsUsed bs
    → 1 ≤ length bs
    → length bs ≤ 24
    → (symbol : List ℕ) × (symbol_from_bytes bs ≡ some symbol)
      × (length symbol ≡ 24)
      × (symbol_bytes symbol ≡ bs)
unfolding symbol_from_bytes symbol_bytes
symbol_bytes-symbol_from_bytes bs h some_byte fits = (
  bs ++ replicate (24 - length bs) 0,
  rw (some_length (length bs) some_byte, le→ltb 24 (length bs) fits) (fill_symbol_lem 24 bs h fits),
  omega (
    arith,
    length-append bs (replicate (24 - length bs) 0),
    length-replicate (24 - length bs) 0,
    fits,
  ),
  rw (used_len-append bs (24 - length bs) h) (take_append_len bs _ (length bs) refl),
)
