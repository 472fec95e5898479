-- ===== src/Fix/Emit/Writes.antt =====
-- What the operations of a `Writer` write: either all bytes, or the writer is full.
use jeed.Base.{
  ℕ, zero, suc, ◌+◌, ◌-◌, ◌/◌, ◌%◌, ◌≤◌, List, [], ◌∷◌, ◌++◌, Option, none, some, false,
}
use jeed.Base.{
  true, leb, ltb, ◌==◌, if◌then◌else◌, length, replicate, ◌≡◌, refl, sym, ◌∙◌, ap, ap₂, arith,
  length-append,
}
use jeed.Base.{append-nil, append_assoc, subst, inl, inr, Bool-cases}
use mathlib.Core.List.{reverse, reverse-cons}
use jeed.Base.Options.{◌>>=◌}
use jeed.Fix.TagValue.{soh, equals}
use jeed.Fix.TagValue.Numeral.{print_digits, numeral}
use jeed.Fix.Emit.Writer.{
  Writer, new, byte, bytes, low_digits, back_to_front, write_u64, zeros, pad, tag, tag_u64, finish,
}

-- More bytes behind those that are there, if they fit.
abbrev pub push : ℕ → List ℕ → List ℕ → Option (List ℕ)
push room bs before = if leb (length before + length bs) room then some (before ++ bs) else none

abbrev pub Fits : Writer → Type 0
Fits w = length w.written ≤ w.room

pub record Writes (w w' : Writer) (bs : List ℕ) : Type 0 where
  pub room : w'.room ≡ w.room
  pub fits : Fits w → Fits w'
  pub seen : Fits w → finish w' ≡ (finish w >>= push w.room bs)

pub byte-Writes : (w : Writer) (b : ℕ) → Writes w (byte w b) (b ∷ [])
unfolding byte
byte-Writes w b = record {
  room = ground arith;
  fits = ground (arith, length-append w.written (b ∷ []));
  seen = ground arith;
}

pub bytes-Writes : (w : Writer) (bs : List ℕ) → Writes w (bytes w bs) bs
unfolding bytes
bytes-Writes w bs = record {
  room = ground arith;
  fits = ground (arith, length-append w.written bs);
  seen = ground arith;
}

push-push :
    (room : ℕ) (a b before : List ℕ)
    → (push room a before >>= push room b) ≡ push room (a ++ b) before
push-push room a b before =
    ground (arith, length-append before a, length-append a b, append_assoc before a b)

>>=-push :
    (room : ℕ) (a b : List ℕ) (o : Option (List ℕ))
    → (o >>= push room a >>= push room b) ≡ (o >>= push room (a ++ b))
>>=-push room a b none = refl
>>=-push room a b (some before) = push-push room a b before

pub Writes-trans :
    (w w' w'' : Writer) (a b : List ℕ) → Writes w w' a → Writes w' w'' b → Writes w w'' (a ++ b)
Writes-trans w w' w'' a b h k = record {
  room = k.room ∙ h.room;
  fits = λ f. k.fits (h.fits f);
  seen = λ f.
      k.seen (h.fits f)
      ∙ ap₂ (λ (o : Option (List ℕ)) (r : ℕ). o >>= push r b) (h.seen f) h.room
      ∙ >>=-push w.room a b (finish w);
}

push_nothing : (w : Writer) → Fits w → finish w ≡ (finish w >>= push w.room [])
push_nothing w f = ground (arith, append-nil w.written)

pub Writes-refl : (w : Writer) → Writes w w []
Writes-refl w = record { room = refl; fits = λ f. f; seen = push_nothing w }

back_to_front-Writes : (w : Writer) (ds : List ℕ) → Writes w (back_to_front w ds) (reverse ds)
unfolding back_to_front
back_to_front-Writes w [] = Writes-refl w
back_to_front-Writes w (d ∷ ds) =
    subst (Writes w (byte (back_to_front w ds) d)) (sym (reverse-cons d ds)) (
      Writes-trans w (back_to_front w ds) (byte (back_to_front w ds) d) (reverse ds) (d ∷ [])
        (back_to_front-Writes w ds) (byte-Writes (back_to_front w ds) d))

reverse-low_digits : (k v : ℕ) → reverse (low_digits k v) ≡ print_digits k v
unfolding low_digits print_digits
reverse-low_digits zero v = refl
reverse-low_digits (suc k) v = elim (Bool-cases (ltb v 10)) [
  | inl e ↦ rw (e, quotient_none v e) (ap (λ (d : ℕ). (b'0' + d) ∷ []) (remainder_all v e))
  | inr e ↦
      rw (e, quotient_some v e)
        (reverse-cons (b'0' + v % 10) (low_digits k (v / 10))
          ∙ ap (λ (ds : List ℕ). ds ++ (b'0' + v % 10) ∷ []) (reverse-low_digits k (v / 10)))
]
  where
    quotient_none : (v : ℕ) → ltb v 10 ≡ true → (v / 10 == 0) ≡ true
    quotient_none v e = ground arith

    quotient_some : (v : ℕ) → ltb v 10 ≡ false → (v / 10 == 0) ≡ false
    quotient_some v e = ground arith

    remainder_all : (v : ℕ) → ltb v 10 ≡ true → v % 10 ≡ v
    remainder_all v e = ground arith

low_digits-numeral : (v : ℕ) → reverse (low_digits 20 v) ≡ numeral v
unfolding numeral
low_digits-numeral v = reverse-low_digits 20 v

length-reverse : (ds : List ℕ) → length (reverse ds) ≡ length ds
length-reverse [] = refl
length-reverse (d ∷ ds) =
    ap length (reverse-cons d ds)
    ∙ omega (arith, length-append (reverse ds) (d ∷ []), length-reverse ds)

write_u64-Writes : (w : Writer) (v : ℕ) → Writes w (write_u64 w v) (numeral v)
unfolding write_u64
write_u64-Writes w v =
    subst (Writes w (write_u64 w v)) (low_digits-numeral v)
      (back_to_front-Writes w (low_digits 20 v))

zeros-Writes : (n : ℕ) (w : Writer) → Writes w (zeros n w) (replicate n b'0')
unfolding zeros
zeros-Writes zero w = Writes-refl w
zeros-Writes (suc n) w =
    Writes-trans w (byte w b'0') (zeros n (byte w b'0')) (b'0' ∷ []) (replicate n b'0')
      (byte-Writes w b'0') (zeros-Writes n (byte w b'0'))

-- A number with zeros in front, up to `width` digits.
abbrev pub padded : ℕ → ℕ → List ℕ
padded width v = replicate (width - length (numeral v)) b'0' ++ numeral v

pub pad-Writes : (w : Writer) (v width : ℕ) → Writes w (pad w v width) (padded width v)
unfolding pad
pad-Writes w v width =
    subst (λ (n : ℕ). Writes w (pad w v width) (replicate (width - n) b'0' ++ numeral v))
      (sym (length-reverse ds) ∙ ap length (low_digits-numeral v))
      (subst (λ bs. Writes w (pad w v width) (replicate (width - length ds) b'0' ++ bs))
        (low_digits-numeral v)
        (Writes-trans w padded_to (back_to_front padded_to ds) (replicate (width - length ds) b'0')
          (reverse ds) (zeros-Writes (width - length ds) w) (back_to_front-Writes padded_to ds)))
  where
    ds : List ℕ
    ds = low_digits 20 v

    padded_to : Writer
    padded_to = zeros (width - length ds) w

-- `tag=value<SOH>`
abbrev pub field_text : ℕ → List ℕ → List ℕ
field_text t value = numeral t ++ (equals ∷ (value ++ (soh ∷ [])))

tag_text :
    (t : ℕ) (value : List ℕ)
    → ((numeral t ++ equals ∷ []) ++ value) ++ soh ∷ [] ≡ field_text t value
tag_text t value = simp append_assoc

pub tag-Writes :
    (w : Writer) (t : ℕ) (value : List ℕ) → Writes w (tag w t value) (field_text t value)
unfolding tag
tag-Writes w t value = subst (Writes w (tag w t value)) (tag_text t value) (
    Writes-trans w w₃ (byte w₃ soh) _ _
      (Writes-trans w w₂ w₃ _ _
        (Writes-trans w w₁ w₂ _ _ (write_u64-Writes w t) (byte-Writes w₁ equals))
        (bytes-Writes w₂ value))
      (byte-Writes w₃ soh))
  where
    w₁ : Writer
    w₁ = write_u64 w t

    w₂ : Writer
    w₂ = byte w₁ equals

    w₃ : Writer
    w₃ = bytes w₂ value

pub tag_u64-Writes : (w : Writer) (t v : ℕ) → Writes w (tag_u64 w t v) (field_text t (numeral v))
unfolding tag_u64
tag_u64-Writes w t v = subst (Writes w (tag_u64 w t v)) (tag_text t (numeral v)) (
    Writes-trans w w₃ (byte w₃ soh) _ _
      (Writes-trans w w₂ w₃ _ _
        (Writes-trans w w₁ w₂ _ _ (write_u64-Writes w t) (byte-Writes w₁ equals))
        (write_u64-Writes w₂ v))
      (byte-Writes w₃ soh))
  where
    w₁ : Writer
    w₁ = write_u64 w t

    w₂ : Writer
    w₂ = byte w₁ equals

    w₃ : Writer
    w₃ = write_u64 w₂ v

-- A writer that starts with an empty buffer.
pub finish-new :
    (room : ℕ) (w : Writer) (bs : List ℕ)
    → Writes (new room) w bs
    → finish w ≡ (if leb (length bs) room then some bs else none)
finish-new room w bs h = h.seen (omega arith) ∙ ground arith
