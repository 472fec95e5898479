-- ===== src/Fix/Emit/Built.antt =====
-- What `Emitter::build` puts into the buffer: a whole message, which `frame` reads back.
use jeed.Base.{ℕ, ◌+◌, ◌/◌, ◌%◌, ◌≤◌, List, [], ◌∷◌, ◌++◌, some, none, false}
use jeed.Base.{leb, if◌then◌else◌, length, ok, length-append, append_assoc, Bool-cases, leb→le}
use jeed.Base.{◌≡◌, sym, ◌∙◌, ap, arith, subst, inl, inr}
use jeed.Fix.TagValue.{soh, Field}
use jeed.Fix.TagValue.Numeral.{numeral}
use jeed.Fix.TagValue.Scan.{encode_fields}
use jeed.Fix.Frame.{checksum}
use jeed.Fix.Frame.Message.{message, begin_then, length_then, trailer_then}
use jeed.Fix.Session.{add_u64}
use jeed.Fix.Value.{as_bytes}
use jeed.Fix.Emit.Writer.{Writer, new, byte, bytes, tag, tag_u64, finish, sending_time}
use jeed.Fix.Emit.Writes.{Writes, field_text, tag-Writes, tag_u64-Writes, byte-Writes}
use jeed.Fix.Emit.Writes.{bytes-Writes, Writes-trans, finish-new}
use jeed.Fix.Emit.Emitter.{Emitter, Sent, max_emit_len, no_room, body_writer, head_writer}
use jeed.Fix.Emit.Emitter.{trailer_writer, build, build_body, build_head, build_trailer}

pub field_text-encode_fields :
    (f : Field) (fs : List Field)
    → field_text f.tag f.value ++ encode_fields fs ≡ encode_fields (f ∷ fs)
field_text-encode_fields f fs = simp append_assoc

pub cons-Writes :
    (f : Field) (fs : List Field) (w w' w'' : Writer)
    → Writes w w' (field_text f.tag f.value)
    → Writes w' w'' (encode_fields fs)
    → Writes w w'' (encode_fields (f ∷ fs))
cons-Writes f fs w w' w'' h k =
    subst (Writes w w'') (field_text-encode_fields f fs) (Writes-trans w w' w'' _ _ h k)

abbrev pub field : ℕ → List ℕ → Field
field tag value = record { tag = tag; value = value }

-- The standard header of every message.
abbrev pub header_fields : Emitter → List ℕ → ℕ → List Field → List Field
header_fields e msg_type now more =
    field 35 msg_type
    ∷ field 49 (as_bytes e.sender)
    ∷ field 56 (as_bytes e.target)
    ∷ field 34 (numeral e.next_seq)
    ∷ field 52 (sending_time now)
    ∷ more

pub body_writer-Writes :
    (e : Emitter) (msg_type : List ℕ) (now : ℕ) (fill : Writer → Writer) (more : List Field)
    → ((w : Writer) → Writes w (fill w) (encode_fields more))
    → Writes
        (new max_emit_len)
        (body_writer e msg_type now fill)
        (encode_fields (header_fields e msg_type now more))
unfolding body_writer
body_writer-Writes e msg_type now fill more fills =
    cons-Writes f₁ (f₂ ∷ f₃ ∷ f₄ ∷ f₅ ∷ more) w₀ w₁ _ (tag-Writes w₀ 35 msg_type) (
      cons-Writes f₂ (f₃ ∷ f₄ ∷ f₅ ∷ more) w₁ w₂ _ (tag-Writes w₁ 49 (as_bytes e.sender)) (
        cons-Writes f₃ (f₄ ∷ f₅ ∷ more) w₂ w₃ _ (tag-Writes w₂ 56 (as_bytes e.target)) (
          cons-Writes f₄ (f₅ ∷ more) w₃ w₄ _ (tag_u64-Writes w₃ 34 e.next_seq)
            (cons-Writes f₅ more w₄ w₅ _ (tag-Writes w₄ 52 (sending_time now)) (fills w₅)))))
  where
    f₁ : Field
    f₁ = field 35 msg_type

    f₂ : Field
    f₂ = field 49 (as_bytes e.sender)

    f₃ : Field
    f₃ = field 56 (as_bytes e.target)

    f₄ : Field
    f₄ = field 34 (numeral e.next_seq)

    f₅ : Field
    f₅ = field 52 (sending_time now)

    w₀ : Writer
    w₀ = new max_emit_len

    w₁ : Writer
    w₁ = tag w₀ 35 msg_type

    w₂ : Writer
    w₂ = tag w₁ 49 (as_bytes e.sender)

    w₃ : Writer
    w₃ = tag w₂ 56 (as_bytes e.target)

    w₄ : Writer
    w₄ = tag_u64 w₃ 34 e.next_seq

    w₅ : Writer
    w₅ = tag w₄ 52 (sending_time now)

-- `8=begin<SOH>9=len<SOH>` and the body.
abbrev pub head_bytes : List ℕ → List ℕ → List ℕ
head_bytes begin body = begin_then begin (length_then (numeral (length body)) body)

head_text :
    (begin body : List ℕ)
    → (((((b'8' ∷ b'=' ∷ []) ++ begin) ++ soh ∷ []) ++ field_text 9 (numeral (length body)))
        ++ body)
      ≡ head_bytes begin body
unfolding numeral
head_text begin body = simp append_assoc

head_writer-Writes :
    (room : ℕ) (begin body : List ℕ)
    → Writes (new room) (head_writer room begin body) (head_bytes begin body)
unfolding head_writer
head_writer-Writes room begin body = subst (Writes w₀ (bytes w₄ body)) (head_text begin body) (
    Writes-trans w₀ w₄ (bytes w₄ body) _ _
      (Writes-trans w₀ w₃ w₄ _ _
        (Writes-trans w₀ w₂ w₃ _ _
          (Writes-trans w₀ w₁ w₂ _ _ (bytes-Writes w₀ (b'8' ∷ b'=' ∷ [])) (bytes-Writes w₁ begin))
          (byte-Writes w₂ soh))
        (tag_u64-Writes w₃ 9 (length body)))
      (bytes-Writes w₄ body))
  where
    w₀ : Writer
    w₀ = new room

    w₁ : Writer
    w₁ = bytes w₀ (b'8' ∷ b'=' ∷ [])

    w₂ : Writer
    w₂ = bytes w₁ begin

    w₃ : Writer
    w₃ = byte w₂ soh

    w₄ : Writer
    w₄ = tag_u64 w₃ 9 (length body)

abbrev pub tail_bytes : ℕ → List ℕ
tail_bytes sum = trailer_then (b'0' + sum / 100 % 10) (b'0' + sum / 10 % 10) (b'0' + sum % 10) []

trailer_writer-Writes :
    (room : ℕ) (head : List ℕ)
    → Writes
        (record { room = room; written = head; full = false })
        (trailer_writer room head)
        (tail_bytes (checksum head))
unfolding trailer_writer
trailer_writer-Writes room head = Writes-trans w₀ w₁ (byte w₄ soh) ten _ (bytes-Writes w₀ ten) (
    Writes-trans w₁ w₂ (byte w₄ soh) (c ∷ []) (b ∷ a ∷ soh ∷ []) (byte-Writes w₁ c) (
      Writes-trans w₂ w₃ (byte w₄ soh) (b ∷ []) (a ∷ soh ∷ []) (byte-Writes w₂ b) (
        Writes-trans w₃ w₄ (byte w₄ soh) (a ∷ []) (soh ∷ []) (byte-Writes w₃ a)
          (byte-Writes w₄ soh))))
  where
    ten : List ℕ
    ten = b'1' ∷ b'0' ∷ b'=' ∷ []

    c : ℕ
    c = b'0' + checksum head / 100 % 10

    b : ℕ
    b = b'0' + checksum head / 10 % 10

    a : ℕ
    a = b'0' + checksum head % 10

    w₀ : Writer
    w₀ = record { room = room; written = head; full = false }

    w₁ : Writer
    w₁ = bytes w₀ ten

    w₂ : Writer
    w₂ = byte w₁ c

    w₃ : Writer
    w₃ = byte w₂ b

    w₄ : Writer
    w₄ = byte w₃ a

-- What `build` answers, where `body` and `message` are the bytes that it has to write.
abbrev pub answer_of : Emitter → ℕ → ℕ → List ℕ → List ℕ → Sent
answer_of e now room body message =
    if leb (length body) max_emit_len
    then (if leb (length message) room
        then (ok message, record e { next_seq = add_u64 e.next_seq 1; last_sent_ns = now })
        else no_room room e)
    else no_room max_emit_len e

abbrev pub message_of : List ℕ → List ℕ → List ℕ
message_of begin body = head_bytes begin body ++ tail_bytes (checksum (head_bytes begin body))

finish-trailer :
    (room : ℕ) (head : List ℕ)
    → length head ≤ room
    → finish (trailer_writer room head) ≡ (
        if leb (length (head ++ tail_bytes (checksum head))) room
        then some (head ++ tail_bytes (checksum head))
        else none)
finish-trailer room head h =
    (trailer_writer-Writes room head).seen h
    ∙ ap (λ (n : ℕ). if leb n room then some (head ++ tail_bytes (checksum head)) else none)
        (sym (length-append head (tail_bytes (checksum head))))

head_too_long :
    (head tail : List ℕ) (room : ℕ)
    → leb (length head) room ≡ false
    → leb (length (head ++ tail)) room ≡ false
head_too_long head tail room h = ground (arith, length-append head tail)

build_head-answer :
    (e : Emitter) (now room : ℕ) (head : List ℕ)
    → build_head e now room (if leb (length head) room then some head else none) ≡ (
        if leb (length (head ++ tail_bytes (checksum head))) room
        then (
          ok (head ++ tail_bytes (checksum head)),
          record e { next_seq = add_u64 e.next_seq 1; last_sent_ns = now },
        )
        else no_room room e)
unfolding build_head build_trailer
build_head-answer e now room head = elim (Bool-cases (leb (length head) room)) [
  | inl fits ↦
      rw (fits, finish-trailer room head (leb→le _ _ fits))
        (elim (Bool-cases (leb (length (head ++ tail_bytes (checksum head))) room)) [
          | inl whole ↦ rw whole
          | inr part ↦ rw part
        ])
  | inr long ↦ rw (long, head_too_long head (tail_bytes (checksum head)) room long)
]

pub build-answer :
    (e : Emitter) (msg_type : List ℕ) (now room : ℕ) (fill : Writer → Writer) (body : List ℕ)
    → Writes (new max_emit_len) (body_writer e msg_type now fill) body
    → build e msg_type now room fill ≡ answer_of e now room body (message_of e.begin body)
unfolding build build_body
build-answer e msg_type now room fill body h =
    rw (finish-new max_emit_len (body_writer e msg_type now fill) body h)
      (elim (Bool-cases (leb (length body) max_emit_len)) [
        | inl fits ↦
            rw (fits, finish-new room _ _ (head_writer-Writes room e.begin body))
              (build_head-answer e now room (head_bytes e.begin body))
        | inr long ↦ rw long
      ])
