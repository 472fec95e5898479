-- ===== src/Fix/TagValue/Scan.antt =====
-- `split_field` and the `Fields` iterator: what was written as `tag=value<SOH>` is read back, and a
-- scan of any body ends.
use jeed.Base.{ℕ, zero, suc, ◌+◌, ◌-◌, ◌^◌, ◌≤◌, ◌<◌, ◌≡◌, refl, sym, ◌∙◌, ap, arith}
use jeed.Base.{List, [], ◌∷◌, ◌++◌, map, some, none, true, false, inl, inr}
use jeed.Base.{length, length-append, all, All, drop, position}
use jeed.Base.{
  position_append, position_lt, length-drop, take_append, drop_append_at, drop-drop, Option-cases,
}
use jeed.Base.{Result, ok}
use native.Mathlib.Nat.{suc-add}
use jeed.Fix.Error.{FixError}
use jeed.Fix.TagValue.{soh, equals, is_equals, is_soh, Field, Fields, rest}
use jeed.Fix.TagValue.{split_value, split_field, advance, next, collect, fields}
use jeed.Fix.TagValue.Digits.{is_digit}
use jeed.Fix.TagValue.Numeral.{numeral, numeral-IsNumeral, parse_u64-numeral}

-- A tag that fits 32 bits and a value free of separators.
pub record IsField (f : Field) : Type 0 where
  pub tag_fits : f.tag < 2 ^ 32
  pub value_free : All (λ b. is_soh b ≡ false) f.value

-- `tag=value<SOH>`, and what follows it.
abbrev pub field_then : Field → List ℕ → List ℕ
field_then f more = numeral f.tag ++ (equals ∷ (f.value ++ (soh ∷ more)))

digits-free : (bs : List ℕ) → all is_digit bs ≡ true → All (λ b. is_equals b ≡ false) bs
digits-free [] h = tt
digits-free (b ∷ bs) h = (ground arith, digits-free bs (ground arith))

length-field_then :
    (f : Field) (more : List ℕ)
    → length (field_then f more) ≡ length (numeral f.tag) + 1 + length f.value + 1 + length more
length-field_then f more = omega (
  arith,
  length-append (numeral f.tag) (equals ∷ (f.value ++ (soh ∷ more))),
  length-append f.value (soh ∷ more),
)

split_value_lem :
    (eq tag : ℕ) (v more : List ℕ)
    → All (λ b. is_soh b ≡ false) v
    → split_value eq tag (v ++ (soh ∷ more))
      ≡ some (record { tag = tag; value = v }, eq + 1 + length v + 1)
unfolding split_value
split_value_lem eq tag v more h =
    rw (position_append is_soh v more soh h refl, take_append v (soh ∷ more)) refl

-- `split_field` reads back what was written, whatever follows.
pub split_field-field_then :
    (f : Field) (more : List ℕ)
    → IsField f
    → split_field (field_then f more) ≡ some (f, length (numeral f.tag) + 1 + length f.value + 1)
unfolding split_field
split_field-field_then f more h =
    let n = numeral-IsNumeral 9 f.tag (omega (arith, h.tag_fits)) (omega arith) in
    let tail : List ℕ = f.value ++ (soh ∷ more) in
    rw
      (
        position_append is_equals (numeral f.tag) tail equals (digits-free (numeral f.tag) n.digits)
            refl,
        take_append (numeral f.tag) (equals ∷ tail),
        drop_append_at (numeral f.tag) (equals ∷ tail) (length (numeral f.tag) + 1) 1 refl,
        parse_u64-numeral f.tag (omega (arith, h.tag_fits)),
      )
      (ground (
        arith,
        n.some_digit,
        n.short,
        h.tag_fits,
        split_value_lem (length (numeral f.tag)) f.tag f.value more h.value_free,
      ))

-- A successful split takes a byte at least, and no more than there are.
pub split_field_takes :
    (bytes : List ℕ) (f : Field) (n : ℕ)
    → split_field bytes ≡ some (f, n)
    → (1 ≤ n) × (n ≤ length bytes)
unfolding split_field split_value
split_field_takes bytes f n e = elim (Option-cases (position is_equals bytes)) [
  | inl p ↦ ground (arith, p)
  | inr (eq, p) ↦ ground (
    arith,
    p,
    position_lt is_equals bytes eq p,
    length-drop (eq + 1) bytes,
    position_lt is_soh (drop (eq + 1) bytes) (n - (eq + 2)),
  )
]

-- The unread bytes of `f`.
abbrev unread : Fields → ℕ
unread f = length (rest f)

-- A round of the iterator ends, or leaves fewer bytes.
next_shrinks :
    (f : Fields) (r : Result FixError Field) → (next f).0 ≡ some r → unread (next f).1 < unread f
unfolding next advance
next_shrinks f r e = elim (Option-cases (split_field (rest f))) [
  | inl p ↦ ground (arith, p, length-drop f.pos f.body, length-drop (length f.body) f.body)
  | inr ((g, n), p) ↦ ground (
    arith,
    p,
    split_field_takes (rest f) g n,
    length-drop f.pos f.body,
    length-drop (f.pos + n) f.body,
  )
]

collect_step :
    (n : ℕ) (f : Fields) (r : Result FixError Field)
    → (next f).0 ≡ some r
    → collect (suc n) f ≡ r ∷ collect n (next f).1
unfolding collect
collect_step n f r e = rw (e, collect) refl

collect_end : (n : ℕ) (f : Fields) → (next f).0 ≡ none → collect n f ≡ []
unfolding collect
collect_end zero f e = refl
collect_end (suc n) f e = rw (e, collect) refl

-- A scan of any body ends: more rounds than it has bytes change nothing, so the loop of `fields`
-- has met the end of the iterator.
pub collect_fuel : (n m : ℕ) (f : Fields) → unread f < n → collect (n + m) f ≡ collect n f
collect_fuel zero m f h = absurd (omega arith)
collect_fuel (suc n) m f h = elim (Option-cases (next f).0) [
  | inl e ↦ collect_end (suc n + m) f e ∙ sym (collect_end (suc n) f e)
  | inr (r, e) ↦ rw suc-add (
      collect_step (n + m) f r e
      ∙ ap (λ l. r ∷ l) (collect_fuel n m (next f).1 (omega (arith, next_shrinks f r e)))
      ∙ sym (collect_step n f r e))
]

-- The bytes of a list of fields.
abbrev pub encode_fields : List Field → List ℕ
encode_fields [] = []
encode_fields (f ∷ fs) = field_then f (encode_fields fs)

abbrev field_len : Field → ℕ
field_len f = length (numeral f.tag) + 1 + length f.value + 1

drop-field_then : (f : Field) (more : List ℕ) → drop (field_len f) (field_then f more) ≡ more
drop-field_then f more =
    drop_append_at (numeral f.tag) (equals ∷ (f.value ++ (soh ∷ more))) (field_len f)
      (suc (length f.value + 1)) (omega arith)
    ∙ drop_append_at f.value (soh ∷ more) (length f.value + 1) 1 refl

next-field_then :
    (body : List ℕ) (pos : ℕ) (f : Field) (more : List ℕ)
    → IsField f
    → drop pos body ≡ field_then f more
    → next (record { body = body; pos = pos })
      ≡ (some (ok f), record { body = body; pos = pos + field_len f })
unfolding next advance
next-field_then body pos f more h e =
    rw (e, split_field-field_then f more h) (ground (arith, length-field_then f more))

collect-encode_fields :
    (fs : List Field) (fuel : ℕ) (body : List ℕ) (pos : ℕ)
    → All IsField fs
    → drop pos body ≡ encode_fields fs
    → length (encode_fields fs) < fuel
    → collect fuel (record { body = body; pos = pos }) ≡ map ok fs
collect-encode_fields fs zero body pos h e hf = absurd (omega arith)
collect-encode_fields [] (suc fuel) body pos h e hf =
    collect_end (suc fuel) _ (unfold next in rw e refl)
collect-encode_fields (f ∷ fs) (suc fuel) body pos h e hf =
    let e' = next-field_then body pos f (encode_fields fs) h.0 e in
    collect_step fuel _ (ok f) (ap (λ p. p.0) e')
    ∙ ap (λ l. ok f ∷ l)
        (ap (λ p. collect fuel p.1) e'
          ∙ collect-encode_fields fs fuel body (pos + field_len f) h.1
              (drop-drop pos (field_len f) body
                ∙ ap (drop (field_len f)) e
                ∙ drop-field_then f (encode_fields fs))
              (omega (arith, length-field_then f (encode_fields fs))))

-- The iterator yields the fields that were written, in order, and no error, where the tags fit 32 bits
-- and no value holds a separator.
pub fields-encode_fields :
    (fs : List Field) → All IsField fs → fields (encode_fields fs) ≡ map ok fs
unfolding fields
fields-encode_fields fs h =
    collect-encode_fields fs (suc (length (encode_fields fs))) (encode_fields fs) 0 h refl
      (omega arith)
