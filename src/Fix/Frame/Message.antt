-- ===== src/Fix/Frame/Message.antt =====
-- A message as a peer writes it, and that `frame` reads it back whatever follows it.
use jeed.Base.{ℕ, ◌+◌, ◌-◌, ◌/◌, ◌%◌, ◌^◌, ◌≤◌, ◌<◌, List, [], ◌∷◌, ◌++◌, some}
use jeed.Base.{
  append-nil, append_assoc, ok, true, false, length, All, all, take, drop, slice, get_or,
}
use jeed.Base.{
  ◌≡◌, refl, sym, ap, ◌∙◌, arith, length-append, position_append, take_append, drop_append,
  take_append_at, drop_append_at, get_or_append_at,
}
use jeed.Fix.TagValue.{soh, is_soh, parse_u64}
use jeed.Fix.TagValue.Digits.{is_digit, parse_u64_lem}
use jeed.Fix.TagValue.Numeral.{numeral, IsNumeral, numeral-IsNumeral, parse_u64-numeral}
use jeed.Fix.Frame.{frame, frame_length, frame_body, frame_trailer, frame_checksum}
use jeed.Fix.Frame.{max_body_length, checksum, checksum_from}

-- `8=begin<SOH>` and what follows.
abbrev pub begin_then : List ℕ → List ℕ → List ℕ
begin_then begin more = b'8' ∷ b'=' ∷ (begin ++ (soh ∷ more))

-- `9=digits<SOH>` and what follows.
abbrev pub length_then : List ℕ → List ℕ → List ℕ
length_then digits more = b'9' ∷ b'=' ∷ (digits ++ (soh ∷ more))

abbrev pub head_len : List ℕ → List ℕ → ℕ
head_len begin digits = 2 + length begin + 1 + 2 + length digits + 1

pub length-begin_then :
    (begin more : List ℕ) → length (begin_then begin more) ≡ length begin + 3 + length more
length-begin_then begin more = omega (arith, length-append begin (soh ∷ more))

-- The first stage passes a whole `8=begin<SOH>`.
pub frame-begin_then :
    (begin more : List ℕ)
    → All (λ b. is_soh b ≡ false) begin
    → frame (begin_then begin more)
      ≡ frame_length (begin_then begin more) begin (2 + length begin + 1)
unfolding frame
frame-begin_then begin more h =
    rw (position_append is_soh begin more soh h refl, take_append begin (soh ∷ more)) (ground arith)

pub drop-begin_then :
    (begin more : List ℕ) → drop (2 + length begin + 1) (begin_then begin more) ≡ more
drop-begin_then begin more =
    drop_append_at (b'8' ∷ b'=' ∷ []) (begin ++ (soh ∷ more)) (2 + length begin + 1)
      (length begin + 1) (omega arith)
    ∙ drop_append_at begin (soh ∷ more) (length begin + 1) 1 refl

-- The second stage passes a whole `9=digits<SOH>`.
pub frame_length-length_then :
    (begin digits more : List ℕ)
    → 1 ≤ length begin
    → All (λ b. is_soh b ≡ false) digits
    → let buf = begin_then begin (length_then digits more) in
      frame_length buf begin (2 + length begin + 1)
      ≡ frame_body buf begin (head_len begin digits) (parse_u64 digits)
unfolding frame_length
frame_length-length_then begin digits more hb hd =
    rw
      (
        drop-begin_then begin (length_then digits more),
        position_append is_soh digits more soh hd refl,
        drop-begin_then begin (length_then digits more),
        take_append digits (soh ∷ more),
      )
      (ground arith)

-- The last stages, on a buffer that is `front ++ body ++ 10=ddd<SOH> ++ more`.
abbrev pub trailer_then : ℕ → ℕ → ℕ → List ℕ → List ℕ
trailer_then c b a more = b'1' ∷ b'0' ∷ b'=' ∷ c ∷ b ∷ a ∷ soh ∷ more

pub checksum_from-lt : (acc : ℕ) (bs : List ℕ) → acc < 256 → checksum_from acc bs < 256
unfolding checksum_from
checksum_from-lt acc [] h = h
checksum_from-lt acc (b ∷ bs) h = checksum_from-lt ((acc + b) % 256) bs (omega arith)

module _ (buf begin : List ℕ) (body_start body_len c b a : ℕ) where
  -- The checks on a trailer that is all there.
  frame_trailer-checksum :
      body_start + body_len + 7 ≤ length buf
      → get_or buf (body_start + body_len - 1) 0 ≡ soh
      → slice (body_start + body_len) (body_start + body_len + 7) buf ≡ trailer_then c b a []
      → frame_trailer buf begin body_start body_len
        ≡ frame_checksum buf begin body_start (body_start + body_len) (parse_u64 (c ∷ b ∷ a ∷ []))
  unfolding frame_trailer
  frame_trailer-checksum long last tail = rw (tail, last) (ground arith)

module _ (front text : List ℕ) where
  abbrev body_text : List ℕ
  body_text = text ++ (soh ∷ [])

  body_end :
      (tail : List ℕ)
      → get_or ((front ++ body_text) ++ tail) (length front + length body_text - 1) 0 ≡ soh
  body_end tail =
      rw (append_assoc, append_assoc, ← append_assoc)
        (get_or_append_at (front ++ text) (soh ∷ tail) 0 (length front + length body_text - 1) 0
          (omega (arith, length-append front text, length-append text (soh ∷ []))))

  body_slice :
      (tail : List ℕ)
      → slice (length front) (length front + length body_text) ((front ++ body_text) ++ tail)
        ≡ body_text
  body_slice tail =
      rw (append_assoc, drop_append)
        (ap (λ n. take n (body_text ++ tail)) (omega arith) ∙ take_append body_text tail)

  -- A verified message, with anything behind its trailer.
  frame_trailer_lem :
      (c b a : ℕ) (more begin : List ℕ)
      → parse_u64 (c ∷ b ∷ a ∷ []) ≡ some (checksum (front ++ body_text))
      → frame_trailer
          ((front ++ body_text) ++ trailer_then c b a more)
          begin
          (length front)
          (length body_text)
        ≡ ok (record {
          bytes = (front ++ body_text) ++ trailer_then c b a [];
          begin = begin;
          body = body_text;
        })
  unfolding frame_checksum
  frame_trailer_lem c b a more begin h =
      frame_trailer-checksum buf begin (length front) (length body_text) c b a
        (omega (arith, length-append whole tail, ends)) (body_end tail)
        (rw (drop_append_at whole tail (length front + length body_text) 0 (omega (arith, ends))) (
          ap (λ n. take n tail)
            (let e : length front + length body_text + 7 - (length front + length body_text) ≡ 7 =
                omega arith in
              e)))
      ∙ rw
          (
            h,
            body_slice tail,
            take_append_at whole tail (length front + length body_text) 0 (omega (arith, ends)),
            take_append_at whole tail (length front + length body_text + 7) 7 (omega (arith, ends)),
            append-nil,
          )
          (ground (arith, checksum_from-lt 0 whole (omega arith)))
    where
      whole : List ℕ
      whole = front ++ body_text

      tail : List ℕ
      tail = trailer_then c b a more

      buf : List ℕ
      buf = whole ++ tail

      ends : length whole ≡ length front + length body_text
      ends = length-append front body_text

-- What the protocol asks of a message: a version text free of separators, and a body of whole
-- fields within the limit.
pub record IsMessage (begin text : List ℕ) : Type 0 where
  pub some_begin : 1 ≤ length begin
  pub begin_free : All (λ b. is_soh b ≡ false) begin
  pub fits : length text < max_body_length

-- The message up to its trailer. A body is `text` and the separator that ends its last field.
abbrev pub head_of : List ℕ → List ℕ → List ℕ
head_of begin text = begin_then begin (length_then (numeral (length text + 1)) (text ++ (soh ∷ [])))

abbrev pub message_then : List ℕ → List ℕ → List ℕ → List ℕ
message_then begin text more =
    let c = checksum (head_of begin text) in
    head_of begin text ++ trailer_then (b'0' + c / 100) (b'0' + c / 10 % 10) (b'0' + c % 10) more

-- A whole message, trailer included.
abbrev pub message : List ℕ → List ℕ → List ℕ
message begin text = message_then begin text []

three_digits :
    (c : ℕ)
    → c < 256
    → parse_u64 ((b'0' + c / 100) ∷ (b'0' + c / 10 % 10) ∷ (b'0' + c % 10) ∷ []) ≡ some c
three_digits c h =
    parse_u64_lem ((b'0' + c / 100) ∷ (b'0' + c / 10 % 10) ∷ (b'0' + c % 10) ∷ []) (omega arith)
    ∙ ground arith

pub digits-free : (bs : List ℕ) → all is_digit bs ≡ true → All (λ b. is_soh b ≡ false) bs
digits-free [] h = tt
digits-free (b ∷ bs) h = (ground arith, digits-free bs (ground arith))

pub numeral_free : (n : ℕ) → n < 10 ^ 5 → All (λ b. is_soh b ≡ false) (numeral n)
numeral_free n h =
    digits-free (numeral n) (IsNumeral.digits (numeral-IsNumeral 4 n h (omega arith)))

-- A head that declares a body within the limit is passed on to the trailer's stage.
pub frame-head :
    (begin more : List ℕ) (n : ℕ)
    → 1 ≤ length begin
    → All (λ b. is_soh b ≡ false) begin
    → 1 ≤ n
    → n ≤ max_body_length
    → let buf = begin_then begin (length_then (numeral n) more) in
      frame buf ≡ frame_trailer buf begin (head_len begin (numeral n)) n
unfolding frame_body
frame-head begin more n some_begin free lo hi =
    frame-begin_then begin (length_then (numeral n) more) free
    ∙ frame_length-length_then begin (numeral n) more some_begin (numeral_free n (omega arith))
    ∙ rw (parse_u64-numeral n (omega arith)) (ground arith)

front_of : List ℕ → ℕ → List ℕ
front_of begin n = begin_then begin (length_then (numeral n) [])

front_of-append :
    (begin : List ℕ) (n : ℕ) (more : List ℕ)
    → front_of begin n ++ more ≡ begin_then begin (length_then (numeral n) more)
unfolding front_of
front_of-append begin n more = rw (append_assoc, append_assoc)

length-front_of : (begin : List ℕ) (n : ℕ) → length (front_of begin n) ≡ head_len begin (numeral n)
unfolding front_of
length-front_of begin n = omega (
  arith,
  length-append begin (soh ∷ length_then (numeral n) []),
  length-append (numeral n) (soh ∷ []),
)

module _ (begin text : List ℕ) where
  abbrev declared : ℕ
  declared = length text + 1

  abbrev sum : ℕ
  sum = checksum (head_of begin text)

  abbrev pub tail_of : List ℕ → List ℕ
  tail_of = trailer_then (b'0' + sum / 100) (b'0' + sum / 10 % 10) (b'0' + sum % 10)

  pub message_then-eq :
      (more : List ℕ)
      → message_then begin text more
        ≡ begin_then begin (length_then (numeral declared) ((text ++ (soh ∷ [])) ++ tail_of more))
  message_then-eq more = rw (append_assoc, append_assoc)

-- `frame` reads a written message back, with its version text and body, whatever bytes follow it in the
-- buffer. The version text has a byte and no separator, and the body is not too long.
pub frame-message_then :
    (begin text more : List ℕ)
    → IsMessage begin text
    → frame (message_then begin text more)
      ≡ ok (record { bytes = message begin text; begin = begin; body = text ++ (soh ∷ []) })
frame-message_then begin text more v =
    ap frame (message_then-eq begin text more)
    ∙ frame-head begin (body ++ tail_of begin text more) (length text + 1) v.some_begin v.begin_free
        (omega arith) (omega (arith, v.fits))
    ∙ rw (← front_of-append begin n (body ++ tail_of begin text more), ← length-front_of begin n)
        (ap (λ b. frame_trailer b begin (length front) n)
            (sym (append_assoc front body (tail_of begin text more)))
          ∙ ap (frame_trailer ((front ++ body) ++ tail_of begin text more) begin (length front))
              (sym (length-append text (soh ∷ [])))
          ∙ frame_trailer_lem front text (b'0' + c / 100) (b'0' + c / 10 % 10) (b'0' + c % 10) more
              begin
              (three_digits c (checksum_from-lt 0 (head_of begin text) (omega arith))
                ∙ ap (λ h. some (checksum h)) head_front)
          ∙ ap (λ h. ok (record { bytes = h ++ tail_of begin text []; begin = begin; body = body }))
              (sym head_front))
  where
    n : ℕ
    n = length text + 1

    c : ℕ
    c = checksum (head_of begin text)

    front : List ℕ
    front = front_of begin n

    body : List ℕ
    body = text ++ (soh ∷ [])

    head_front : head_of begin text ≡ front ++ body
    head_front = sym (front_of-append begin n body)
