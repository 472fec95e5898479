-- ===== src/Fix/Emit/Sent.antt =====
-- What `Emitter::build` sends: a whole message, which `frame` reads back with the fields written.
use jeed.Base.{ℕ, ◌+◌, ◌/◌, ◌%◌, ◌≤◌, ◌<◌, List, [], ◌∷◌, ◌++◌, false}
use jeed.Base.{length, ok, All, length-append, append_assoc}
use jeed.Base.{◌≡◌, sym, ◌∙◌, ap, arith}
use jeed.Fix.TagValue.{soh, is_soh, equals, Field}
use jeed.Fix.TagValue.Numeral.{numeral}
use jeed.Fix.TagValue.Scan.{encode_fields}
use jeed.Fix.Frame.{frame, checksum}
use jeed.Fix.Frame.Message.{message, head_of, begin_then, length_then, trailer_then}
use jeed.Fix.Frame.Message.{frame-message_then, checksum_from-lt}
use jeed.Fix.Session.{add_u64}
use jeed.Fix.Value.{as_bytes}
use jeed.Fix.Emit.Writer.{Writer, sending_time}
use jeed.Fix.Emit.Writes.{Writes, field_text}
use jeed.Fix.Emit.Emitter.{Emitter, max_emit_len}
use jeed.Fix.Emit.Emitter.{build}
use jeed.Fix.Emit.Built.{header_fields, head_bytes, tail_bytes, field, message_of, answer_of}
use jeed.Fix.Emit.Built.{build-answer, body_writer-Writes, field_text-encode_fields}

-- Fields without the separator behind the last.
abbrev pub text_of : List Field → List ℕ
text_of [] = []
text_of (f ∷ []) = numeral f.tag ++ (equals ∷ f.value)
text_of (f ∷ g ∷ fs) = field_text f.tag f.value ++ text_of (g ∷ fs)

text_of-encode_fields :
    (f : Field) (fs : List Field) → text_of (f ∷ fs) ++ soh ∷ [] ≡ encode_fields (f ∷ fs)
text_of-encode_fields f [] = simp append_assoc
text_of-encode_fields f (g ∷ fs) =
    append_assoc (field_text f.tag f.value) (text_of (g ∷ fs)) (soh ∷ [])
    ∙ ap (λ r. field_text f.tag f.value ++ r) (text_of-encode_fields g fs)
    ∙ field_text-encode_fields f (g ∷ fs)

head_bytes-text : (begin text : List ℕ) → head_bytes begin (text ++ soh ∷ []) ≡ head_of begin text
head_bytes-text begin text =
    ap (λ (n : ℕ). begin_then begin (length_then (numeral n) (text ++ soh ∷ [])))
      (length-append text (soh ∷ []))

same_digits : (c : ℕ) → c < 256 → c / 100 % 10 ≡ c / 100
same_digits c h = omega arith

message_of-text : (begin text : List ℕ) → message_of begin (text ++ soh ∷ []) ≡ message begin text
message_of-text begin text =
    ap (λ (h : List ℕ). h ++ tail_bytes (checksum h)) (head_bytes-text begin text)
    ∙ ap
        (λ (d : ℕ).
          head_of begin text ++ trailer_then (b'0' + d) (b'0' + c / 10 % 10) (b'0' + c % 10) [])
        (same_digits c (checksum_from-lt 0 (head_of begin text) (omega arith)))
  where
    c : ℕ
    c = checksum (head_of begin text)

answer_of-ok :
    (e : Emitter) (now room : ℕ) (body message out : List ℕ) (e' : Emitter)
    → answer_of e now room body message ≡ (ok out, e')
    → (out ≡ message)
      × (length body ≤ max_emit_len)
      × (length out ≤ room)
      × (e'.next_seq ≡ add_u64 e.next_seq 1)
      × (e'.last_sent_ns ≡ now)
answer_of-ok e now room body message out e' h = ground arith

abbrev header_rest : Emitter → ℕ → List Field → List Field
header_rest e now more =
    field 49 (as_bytes e.sender)
    ∷ field 56 (as_bytes e.target)
    ∷ field 34 (numeral e.next_seq)
    ∷ field 52 (sending_time now)
    ∷ more

module _ (e : Emitter) (msg_type : List ℕ) (now : ℕ) (fill : Writer → Writer) (more : List Field)
    (fills : (w : Writer) → Writes w (fill w) (encode_fields more)) where
  abbrev pub sent_fields : List Field
  sent_fields = header_fields e msg_type now more

  abbrev pub sent_bytes : List ℕ
  sent_bytes = message e.begin (text_of sent_fields)

  -- `build` writes the message of the header's fields (type, sender, target, number, time) and those
  -- added, in order, framed with its length and checksum, exactly if the body has 4096 bytes at most
  -- and the whole fits the buffer; otherwise it answers the capacity that was too small and the
  -- emitter stays as it was.
  pub build_lem :
      (room : ℕ)
      → build e msg_type now room fill ≡ answer_of e now room (encode_fields sent_fields) sent_bytes
  build_lem room =
      build-answer e msg_type now room fill (encode_fields sent_fields)
        (body_writer-Writes e msg_type now fill more fills)
      ∙ ap (answer_of e now room (encode_fields sent_fields)) same_message
    where
      same_message : message_of e.begin (encode_fields sent_fields) ≡ sent_bytes
      same_message =
          ap (message_of e.begin)
            (sym (text_of-encode_fields (field 35 msg_type) (header_rest e now more)))
          ∙ message_of-text e.begin (text_of sent_fields)

  module _ (room : ℕ) (out : List ℕ) (e' : Emitter)
      (sent : build e msg_type now room fill ≡ (ok out, e')) where
    answered : answer_of e now room (encode_fields sent_fields) sent_bytes ≡ (ok out, e')
    answered = sym (build_lem room) ∙ sent

    -- What a success says.
    pub build-ok :
        (out ≡ sent_bytes)
        × (length (encode_fields sent_fields) ≤ max_emit_len)
        × (length out ≤ room)
        × (e'.next_seq ≡ add_u64 e.next_seq 1)
        × (e'.last_sent_ns ≡ now)
    build-ok = answer_of-ok e now room (encode_fields sent_fields) sent_bytes out e' answered

    text_size : length (text_of sent_fields) + 1 ≡ length (encode_fields sent_fields)
    text_size =
        sym (length-append (text_of sent_fields) (soh ∷ []))
        ∙ ap length (text_of-encode_fields (field 35 msg_type) (header_rest e now more))

    pub frame-build :
        1 ≤ length e.begin
        → All (λ b. is_soh b ≡ false) e.begin
        → frame out ≡ ok (record { bytes = out; begin = e.begin; body = encode_fields sent_fields })
    frame-build some_begin free =
        let (same, small, _, _, _) = build-ok in
        rw same (
          frame-message_then e.begin (text_of sent_fields) [] (record {
            some_begin = some_begin;
            begin_free = free;
            fits = omega (arith, text_size, small);
          })
          ∙ ap (λ b. ok (record { bytes = sent_bytes; begin = e.begin; body = b }))
              (text_of-encode_fields (field 35 msg_type) (header_rest e now more)))
