-- ===== src/Base/Lists.antt =====
-- Lists measured and cut by native numbers: Rust's slices, under the library's names.
use Prim.Native.Nat.{ℕ, zero, suc, ◌+◌, ◌-◌, ◌≤◌, ◌<◌, min}
use mathlib.Core.Path.{◌≡◌, refl, ap, ◌∙◌}
use mathlib.Core.Bool.{Bool, true, false, ◌&&◌}
use mathlib.Core.List.{List, [], ◌∷◌, ◌++◌}
use mathlib.Core.Option
use mathlib.Core.Option.{Option, none, some}
use native.Mathlib.Omega.{arith}
use native.Mathlib.Nat.{suc-add}
use jeed.Base.Tests.{◌==◌, if◌then◌else◌}

module _ {ℓ} {A : Type ℓ} where
  abbrev pub length : List A → ℕ
  length [] = 0
  length (x ∷ xs) = suc (length xs)

  abbrev pub replicate : ℕ → A → List A
  replicate zero x = []
  replicate (suc n) x = x ∷ replicate n x

  abbrev pub get_elem? : List A → ℕ → Option A
  get_elem? [] i = none
  get_elem? (x ∷ xs) zero = some x
  get_elem? (x ∷ xs) (suc i) = get_elem? xs i

  abbrev pub get_or : List A → ℕ → A → A
  get_or [] i d = d
  get_or (x ∷ xs) zero d = x
  get_or (x ∷ xs) (suc i) d = get_or xs i d

  abbrev pub take : ℕ → List A → List A
  take zero xs = []
  take (suc n) [] = []
  take (suc n) (x ∷ xs) = x ∷ take n xs

  abbrev pub drop : ℕ → List A → List A
  drop zero xs = xs
  drop (suc n) [] = []
  drop (suc n) (x ∷ xs) = drop n xs

  -- `iter().position(p)`
  abbrev pub position : (A → Bool) → List A → Option ℕ
  position p [] = none
  position p (x ∷ xs) = if p x then some 0 else Option.map suc (position p xs)

  abbrev pub all : (A → Bool) → List A → Bool
  all p [] = true
  all p (x ∷ xs) = p x && all p xs

  abbrev pub All {κ} : (A → Type κ) → List A → Type κ
  All P [] = Unit
  All P (x ∷ xs) = P x × All P xs

-- Equality of two byte strings.
abbrev pub same_bytes : List ℕ → List ℕ → Bool
same_bytes [] [] = true
same_bytes [] (y ∷ ys) = false
same_bytes (x ∷ xs) [] = false
same_bytes (x ∷ xs) (y ∷ ys) = x == y && same_bytes xs ys

-- The bytes `from .. to` of a slice.
abbrev pub slice {ℓ} : {A : Type ℓ} → ℕ → ℕ → List A → List A
slice from to xs = take (to - from) (drop from xs)

module _ {ℓ} {A : Type ℓ} where
  pub length-append : (xs ys : List A) → length (xs ++ ys) ≡ length xs + length ys
  length-append [] ys = omega arith
  length-append (x ∷ xs) ys = omega (arith, length-append xs ys)

  pub length-take : (n : ℕ) (xs : List A) → length (take n xs) ≡ min n (length xs)
  length-take zero xs = omega arith
  length-take (suc n) [] = omega arith
  length-take (suc n) (x ∷ xs) = omega (arith, length-take n xs)

  pub length-drop : (n : ℕ) (xs : List A) → length (drop n xs) ≡ length xs - n
  length-drop zero xs = omega arith
  length-drop (suc n) [] = omega arith
  length-drop (suc n) (x ∷ xs) = omega (arith, length-drop n xs)

  pub take-append-drop : (n : ℕ) (xs : List A) → take n xs ++ drop n xs ≡ xs
  take-append-drop zero xs = refl
  take-append-drop (suc n) [] = refl
  take-append-drop (suc n) (x ∷ xs) = ap (λ r. x ∷ r) (take-append-drop n xs)

  pub take_append : (xs ys : List A) → take (length xs) (xs ++ ys) ≡ xs
  take_append [] ys = refl
  take_append (x ∷ xs) ys = ap (λ r. x ∷ r) (take_append xs ys)

  pub drop_append : (xs ys : List A) → drop (length xs) (xs ++ ys) ≡ ys
  drop_append [] ys = refl
  drop_append (x ∷ xs) ys = drop_append xs ys

  -- Indices past the front of an append count in its back.
  pub drop_append_at :
      (xs ys : List A) (n m : ℕ) → n ≡ length xs + m → drop n (xs ++ ys) ≡ drop m ys
  drop_append_at [] ys n m e = ap (λ k. drop k ys) (omega arith)
  drop_append_at (x ∷ xs) ys zero m e = absurd (omega arith)
  drop_append_at (x ∷ xs) ys (suc n) m e = drop_append_at xs ys n m (omega arith)

  pub get_or_append_at :
      (xs ys : List A) (d : A) (n m : ℕ) → n ≡ length xs + m → get_or (xs ++ ys) n d ≡ get_or ys m d
  get_or_append_at [] ys d n m e = ap (λ k. get_or ys k d) (omega arith)
  get_or_append_at (x ∷ xs) ys d zero m e = absurd (omega arith)
  get_or_append_at (x ∷ xs) ys d (suc n) m e = get_or_append_at xs ys d n m (omega arith)

  pub drop-drop : (a b : ℕ) (xs : List A) → drop (a + b) xs ≡ drop b (drop a xs)
  drop-drop zero b xs = ap (λ k. drop k xs) (omega arith)
  drop-drop (suc a) zero [] = rw suc-add refl
  drop-drop (suc a) (suc b) [] = rw suc-add refl
  drop-drop (suc a) b (x ∷ xs) = rw suc-add (drop-drop a b xs)

  pub take_append_at :
      (xs ys : List A) (n m : ℕ) → n ≡ length xs + m → take n (xs ++ ys) ≡ xs ++ take m ys
  take_append_at [] ys n m e = ap (λ k. take k ys) (omega arith)
  take_append_at (x ∷ xs) ys zero m e = absurd (omega arith)
  take_append_at (x ∷ xs) ys (suc n) m e = ap (λ r. x ∷ r) (take_append_at xs ys n m (omega arith))

  pub take_append_len : (xs ys : List A) (n : ℕ) → n ≡ length xs → take n (xs ++ ys) ≡ xs
  take_append_len xs ys n e = rw e (take_append xs ys)

  -- Within the front, a cut does not see the back.
  pub take_append_le : (xs ys : List A) (n : ℕ) → n ≤ length xs → take n (xs ++ ys) ≡ take n xs
  take_append_le xs ys zero h = refl
  take_append_le [] ys (suc n) h = absurd (omega arith)
  take_append_le (x ∷ xs) ys (suc n) h = ap (λ r. x ∷ r) (take_append_le xs ys n (omega arith))

  pub take_of_length_le : (n : ℕ) (xs : List A) → length xs ≤ n → take n xs ≡ xs
  take_of_length_le zero [] h = refl
  take_of_length_le zero (x ∷ xs) h = absurd (omega arith)
  take_of_length_le (suc n) [] h = refl
  take_of_length_le (suc n) (x ∷ xs) h = ap (λ r. x ∷ r) (take_of_length_le n xs (omega arith))

  pub drop_of_length_le : (n : ℕ) (xs : List A) → length xs ≤ n → drop n xs ≡ []
  drop_of_length_le zero [] h = refl
  drop_of_length_le zero (x ∷ xs) h = absurd (omega arith)
  drop_of_length_le (suc n) [] h = refl
  drop_of_length_le (suc n) (x ∷ xs) h = drop_of_length_le n xs (omega arith)

  pub drop-take : (k n : ℕ) (xs : List A) → drop k (take n xs) ≡ take (n - k) (drop k xs)
  drop-take zero n xs = ap (λ m. take m xs) (omega arith)
  drop-take (suc k) zero xs = ap (λ m. take m (drop (suc k) xs)) none_left
    where
      none_left : 0 ≡ 0 - suc k
      none_left = omega arith
  drop-take (suc k) (suc n) [] = take_nil (suc n - suc k)
    where
      take_nil : (m : ℕ) → ◌≡◌ {A = List A} [] (take m [])
      take_nil zero = refl
      take_nil (suc m) = refl
  drop-take (suc k) (suc n) (x ∷ xs) = drop-take k n xs ∙ ap (λ m. take m (drop k xs)) (omega arith)

  pub drop_append_le :
      (xs ys : List A) (n : ℕ) → n ≤ length xs → drop n (xs ++ ys) ≡ drop n xs ++ ys
  drop_append_le xs ys zero h = refl
  drop_append_le [] ys (suc n) h = absurd (omega arith)
  drop_append_le (x ∷ xs) ys (suc n) h = drop_append_le xs ys n (omega arith)

module _ {ℓ} {A : Type ℓ} (p : A → Bool) where
  -- The first hit, behind a front without one.
  pub position_append :
      (xs ys : List A) (y : A)
      → All (λ x. p x ≡ false) xs
      → p y ≡ true
      → position p (xs ++ (y ∷ ys)) ≡ some (length xs)
  position_append [] ys y h e = rw e
  position_append (x ∷ xs) ys y h e = rw (h.0, position_append xs ys y h.1 e)

  pub position_lt : (xs : List A) (i : ℕ) → position p xs ≡ some i → i < length xs
  position_lt [] i e = cc
  position_lt (x ∷ xs) i e = ground (arith, position_lt xs (i - 1))

  pub position-none : (xs : List A) → All (λ x. p x ≡ false) xs → position p xs ≡ none
  position-none [] h = refl
  position-none (x ∷ xs) h = rw (h.0, position-none xs h.1)

module _ {ℓ κ} {A : Type ℓ} (P : A → Type κ) where
  pub All-append : (xs ys : List A) → All P xs → All P ys → All P (xs ++ ys)
  All-append [] ys h k = k
  All-append (x ∷ xs) ys h k = (h.0, All-append xs ys h.1 k)

  pub All-take : (n : ℕ) (xs : List A) → All P xs → All P (take n xs)
  All-take zero xs h = tt
  All-take (suc n) [] h = tt
  All-take (suc n) (x ∷ xs) h = (h.0, All-take n xs h.1)
