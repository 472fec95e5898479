-- ===== src/Fix/Frame/Prefix.antt =====
-- The stream view: a message that has not all arrived is `incomplete`, never an error.
use jeed.Base.{
  ℕ, zero, suc, ◌+◌, ◌-◌, ◌≤◌, ◌<◌, ◌≡◌, ap, ◌∙◌, arith, false, List, [], ◌∷◌, ◌++◌, err,
}
use jeed.Base.{
  length, take, position-none, length-append, length-take, All, All-take, take_append_at,
  take_append_le,
}
use jeed.Fix.Error.{incomplete}
use jeed.Fix.TagValue.{soh, is_soh}
use jeed.Fix.TagValue.Numeral.{numeral, IsNumeral, numeral-IsNumeral}
use jeed.Fix.Frame.{max_body_length, frame, frame_length, frame_trailer}
use jeed.Fix.Frame.Message.{
  begin_then, length_then, head_len, frame-begin_then, drop-begin_then, frame-head, numeral_free,
  IsMessage, message, message_then-eq, tail_of, length-begin_then,
}
use native.Mathlib.Decide.{dec_lt}

-- The buffer ends inside `8=begin`.
in_begin :
    (bs : List ℕ)
    → length bs ≤ 16
    → All (λ b. is_soh b ≡ false) bs
    → frame (b'8' ∷ b'=' ∷ bs) ≡ err incomplete
unfolding frame
in_begin bs h free = rw (position-none is_soh bs free) (ground arith)

-- The buffer ends inside `9=digits`.
in_length :
    (begin bs : List ℕ)
    → 1 ≤ length begin
    → length bs ≤ 6
    → All (λ b. is_soh b ≡ false) bs
    → frame_length (begin_then begin (b'9' ∷ b'=' ∷ bs)) begin (2 + length begin + 1)
      ≡ err incomplete
unfolding frame_length
in_length begin bs hb h free =
    rw (drop-begin_then begin (b'9' ∷ b'=' ∷ bs), position-none is_soh bs free)
      (ground (arith, ap length (drop-begin_then begin (b'9' ∷ b'=' ∷ bs))))

-- The buffer ends before `9=`.
before_length :
    (begin bs : List ℕ)
    → 1 ≤ length begin
    → length bs < 2
    → frame_length (begin_then begin bs) begin (2 + length begin + 1) ≡ err incomplete
unfolding frame_length
before_length begin bs hb h = rw (drop-begin_then begin bs) (ground arith)

-- The buffer ends before the declared end of the message.
in_body :
    (buf begin : List ℕ) (body_start n : ℕ)
    → length buf < body_start + n + 7
    → frame_trailer buf begin body_start n ≡ err incomplete
unfolding frame_trailer
in_body buf begin body_start n h = ground arith

module _ (begin rest : List ℕ) (n : ℕ) (some_begin : 1 ≤ length begin)
    (free : All (λ b. is_soh b ≡ false) begin) (lo : 1 ≤ n) (hi : n ≤ max_body_length)
    (left : length rest ≡ n + 7) where
  abbrev digits : List ℕ
  digits = numeral n

  -- All of `9=digits<SOH>` is there, and the buffer ends after `i` bytes more.
  past_length :
      (i : ℕ)
      → i < n + 7
      → frame (begin_then begin (length_then digits (take i rest))) ≡ err incomplete
  past_length i h =
      frame-head begin (take i rest) n some_begin free lo hi
      ∙ in_body (begin_then begin (length_then digits (take i rest))) begin (head_len begin digits)
          n
          (omega (
            arith,
            length-begin_then begin (length_then digits (take i rest)),
            length-append digits (soh ∷ take i rest),
            length-take i rest,
          ))

  -- The buffer ends `k` bytes after `8=begin<SOH>`.
  past_begin :
      (k : ℕ)
      → k < length digits + 3 + (n + 7)
      → frame (begin_then begin (take k (length_then digits rest))) ≡ err incomplete
  past_begin zero h =
      frame-begin_then begin [] free ∙ before_length begin [] some_begin (omega arith)
  past_begin (suc zero) h =
      frame-begin_then begin (b'9' ∷ []) free
      ∙ before_length begin (b'9' ∷ []) some_begin (omega arith)
  past_begin (suc (suc k)) h = elim (dec_lt (length digits) k) [
    | yes p ↦
        rw (take_append_at digits (soh ∷ rest) k (suc (k - length digits - 1)) (omega arith))
          (past_length (k - length digits - 1) (omega arith))
    | no p ↦ rw (take_append_le digits (soh ∷ rest) k (omega arith)) (
        frame-begin_then begin (b'9' ∷ b'=' ∷ take k digits) free
        ∙ in_length begin (take k digits) some_begin
            (omega (
              arith,
              length-take k digits,
              IsNumeral.short (numeral-IsNumeral 4 n (omega arith) (omega arith)),
            ))
            (All-take (λ b. is_soh b ≡ false) k digits (numeral_free n (omega arith))))
  ]

  -- The buffer ends after `k` bytes.
  cut_message :
      (k : ℕ)
      → length begin ≤ 16
      → k < length begin + 3 + (length digits + 3 + (n + 7))
      → frame (take k (begin_then begin (length_then digits rest))) ≡ err incomplete
  cut_message zero hb h = unfold frame in ground arith
  cut_message (suc zero) hb h = unfold frame in ground arith
  cut_message (suc (suc k)) hb h = elim (dec_lt (length begin) k) [
    | yes p ↦
        rw
          (take_append_at begin (soh ∷ length_then digits rest) k (suc (k - length begin - 1))
            (omega arith))
          (past_begin (k - length begin - 1) (omega arith))
    | no p ↦ rw (take_append_le begin (soh ∷ length_then digits rest) k (omega arith)) (
        in_begin (take k begin) (omega (arith, length-take k begin))
          (All-take (λ b. is_soh b ≡ false) k begin free))
  ]

-- Every proper prefix of a written message, with a version text of at most 16 bytes, is
-- `incomplete`: a stream that is cut anywhere is never mistaken for one that is out of step.
pub frame-take-message :
    (begin text : List ℕ) (k : ℕ)
    → IsMessage begin text
    → length begin ≤ 16
    → k < length (message begin text)
    → frame (take k (message begin text)) ≡ err incomplete
frame-take-message begin text k v hb h = rw (message_then-eq begin text []) (
    cut_message begin (body ++ tail_of begin text []) (length text + 1) v.some_begin v.begin_free
      (omega arith) (omega (arith, v.fits))
      (omega (arith, length-append body (tail_of begin text []), length-append text (soh ∷ []))) k
      hb whole)
  where
    body : List ℕ
    body = text ++ (soh ∷ [])

    rest : List ℕ
    rest = body ++ tail_of begin text []

    whole : k < length begin + 3 + (length (numeral (length text + 1)) + 3 + (length text + 1 + 7))
    whole = omega (
      arith,
      ap length (message_then-eq begin text []),
      length-begin_then begin (length_then (numeral (length text + 1)) rest),
      length-append (numeral (length text + 1)) (soh ∷ rest),
      length-append body (tail_of begin text []),
      length-append text (soh ∷ []),
    )
