-- ===== src/Fix/Emit/Emitter.antt =====
-- `Emitter` of crates/jeed-fix/src/recv/emit.rs: one function for each message it sends.
use jeed.Base.{ℕ, ◌+◌, ◌-◌, ◌/◌, ◌%◌, List, [], ◌∷◌, Option, none, some, Bool, false}
use jeed.Base.{◌||◌, leb, ◌==◌, if◌then◌else◌, length, take, Result, ok, err, map}
use jeed.Fix.TagValue.{soh}
use jeed.Fix.Frame.{checksum}
use jeed.Fix.Session.{add_u64}
use jeed.Fix.Value.{FixText, new_text, as_bytes}
use jeed.Fix.MarketData.Entry.{MdEntryType, as_byte}
use jeed.Fix.Emit.Writer.{Writer, new, byte, bytes, tag, tag_u64, finish, sending_time}

-- `FIX_BEGIN_STRING`
abbrev pub fix_begin_string : List ℕ
fix_begin_string = b'F' ∷ b'I' ∷ b'X' ∷ b'.' ∷ b'4' ∷ b'.' ∷ b'4' ∷ []

-- `MAX_EMIT_LEN`
abbrev pub max_emit_len : ℕ
max_emit_len = 4096

pub data SubscriptionType : Type 0 where
  snapshot snapshot_plus_updates unsubscribe : SubscriptionType

abbrev pub subscription_byte : SubscriptionType → ℕ
subscription_byte snapshot = b'0'
subscription_byte snapshot_plus_updates = b'1'
subscription_byte unsubscribe = b'2'

pub record SubscriptionRequest : Type 0 where
  pub req_id : List ℕ
  pub subscription : SubscriptionType
  pub depth : ℕ
  pub update_type : Option ℕ
  pub entry_types : List MdEntryType
  pub symbols : List (List ℕ)

pub record EmitError : Type 0 where
  pub capacity : ℕ

-- `begin` is the front of `begin_string` that `begin_len` covers.
pub record Emitter : Type 0 where
  pub begin : List ℕ
  pub sender : FixText
  pub target : FixText
  pub next_seq : ℕ
  pub last_sent_ns : ℕ

abbrev pub new_emitter : List ℕ → List ℕ → Emitter
new_emitter sender target = record {
  begin = fix_begin_string;
  sender = new_text sender;
  target = new_text target;
  next_seq = 1;
  last_sent_ns = 0;
}

abbrev pub with_begin_string : List ℕ → Emitter → Emitter
with_begin_string begin_string e = record e { begin = take 16 begin_string }

unfoldable pub owes_heartbeat : Emitter → ℕ → ℕ → Bool
owes_heartbeat e now interval_ns =
    if interval_ns == 0 || e.last_sent_ns == 0
    then false
    else leb interval_ns (now - e.last_sent_ns)

abbrev pub reset : Emitter → Emitter
reset e = record e { next_seq = 1; last_sent_ns = 0 }

abbrev pub set_next_seq : ℕ → Emitter → Emitter
set_next_seq seq e = record e { next_seq = seq }

-- What `build` writes to `self.body`.
unfoldable pub body_writer : Emitter → List ℕ → ℕ → (Writer → Writer) → Writer
body_writer e msg_type now fields =
    let w₁ = tag (new max_emit_len) 35 msg_type in
    let w₂ = tag w₁ 49 (as_bytes e.sender) in
    let w₃ = tag w₂ 56 (as_bytes e.target) in
    let w₄ = tag_u64 w₃ 34 e.next_seq in fields (tag w₄ 52 (sending_time now))

-- What it writes to `out` before the trailer.
unfoldable pub head_writer : ℕ → List ℕ → List ℕ → Writer
head_writer room begin body =
    let w₁ = byte (bytes (bytes (new room) (b'8' ∷ b'=' ∷ [])) begin) soh in
    bytes (tag_u64 w₁ 9 (length body)) body

-- `Writer::at` behind the head, and the trailer.
unfoldable pub trailer_writer : ℕ → List ℕ → Writer
trailer_writer room head =
    let sum = checksum head in
    let w =
      bytes (record { room = room; written = head; full = false }) (b'1' ∷ b'0' ∷ b'=' ∷ []) in
    let w₁ = byte w (b'0' + sum / 100 % 10) in
    let w₂ = byte w₁ (b'0' + sum / 10 % 10) in byte (byte w₂ (b'0' + sum % 10)) soh

abbrev pub Sent : Type 0
Sent = Result EmitError (List ℕ) × Emitter

abbrev pub no_room : ℕ → Emitter → Sent
no_room capacity e = (err (record { capacity = capacity }), e)

unfoldable pub build_trailer : Emitter → ℕ → ℕ → Option (List ℕ) → Sent
build_trailer e now room none = no_room room e
build_trailer e now room (some message) =
    (ok message, record e { next_seq = add_u64 e.next_seq 1; last_sent_ns = now })

unfoldable pub build_head : Emitter → ℕ → ℕ → Option (List ℕ) → Sent
build_head e now room none = no_room room e
build_head e now room (some head) = build_trailer e now room (finish (trailer_writer room head))

unfoldable pub build_body : Emitter → ℕ → ℕ → Option (List ℕ) → Sent
build_body e now room none = no_room max_emit_len e
build_body e now room (some body) = build_head e now room (finish (head_writer room e.begin body))

-- `build` into a buffer of `room` bytes: the bytes that were written.
unfoldable pub build : Emitter → List ℕ → ℕ → ℕ → (Writer → Writer) → Sent
unfolding build_body build_head build_trailer
build e msg_type now room fields =
    build_body e now room (finish (body_writer e msg_type now fields))

abbrev pub logon_fields : ℕ → Bool → Writer → Writer
logon_fields heartbeat_secs reset_seq w =
    let w₁ = tag_u64 (tag_u64 w 98 0) 108 heartbeat_secs in
    if reset_seq then tag w₁ 141 (b'Y' ∷ []) else w₁

unfoldable pub logon : Emitter → ℕ → Bool → ℕ → ℕ → Sent
logon e heartbeat_secs reset_seq now room =
    build e (b'A' ∷ []) now room (logon_fields heartbeat_secs reset_seq)

-- `if let Some(v) = value { w.tag(t, v) }`
abbrev pub optional_field : ℕ → Option (List ℕ) → Writer → Writer
optional_field t none w = w
optional_field t (some v) w = tag w t v

unfoldable pub heartbeat : Emitter → Option (List ℕ) → ℕ → ℕ → Sent
heartbeat e test_req_id now room = build e (b'0' ∷ []) now room (optional_field 112 test_req_id)

unfoldable pub test_request : Emitter → List ℕ → ℕ → ℕ → Sent
test_request e id now room = build e (b'1' ∷ []) now room (λ w. tag w 112 id)

unfoldable pub resend_request : Emitter → ℕ → ℕ → ℕ → ℕ → Sent
resend_request e begin last now room =
    build e (b'2' ∷ []) now room (λ w. tag_u64 (tag_u64 w 7 begin) 16 last)

abbrev pub reset_fields : ℕ → Bool → Writer → Writer
reset_fields new_seq gap_fill w =
    if gap_fill then tag (tag_u64 w 36 new_seq) 123 (b'Y' ∷ []) else tag_u64 w 36 new_seq

unfoldable pub sequence_reset : Emitter → ℕ → Bool → ℕ → ℕ → Sent
sequence_reset e new_seq gap_fill now room =
    build e (b'4' ∷ []) now room (reset_fields new_seq gap_fill)

unfoldable pub logout : Emitter → Option (List ℕ) → ℕ → ℕ → Sent
logout e text now room = build e (b'5' ∷ []) now room (optional_field 58 text)

-- `for value in values { w.tag(t, value) }`
unfoldable pub each_field : ℕ → List (List ℕ) → Writer → Writer
each_field t [] w = w
each_field t (v ∷ vs) w = each_field t vs (tag w t v)

abbrev pub entry_type_text : MdEntryType → List ℕ
entry_type_text entry = as_byte entry ∷ []

abbrev pub update_text : Option ℕ → Option (List ℕ)
update_text none = none
update_text (some b) = some (b ∷ [])

abbrev pub request_fields : SubscriptionRequest → Writer → Writer
request_fields req w =
    let w₁ = tag (tag w 262 req.req_id) 263 (subscription_byte req.subscription ∷ []) in
    let w₂ = optional_field 265 (update_text req.update_type) (tag_u64 w₁ 264 req.depth) in
    let w₃ = tag_u64 w₂ 267 (length req.entry_types) in
    let w₄ =
      tag_u64 (each_field 269 (map entry_type_text req.entry_types) w₃) 146 (length req.symbols) in
    each_field 55 req.symbols w₄

unfoldable pub market_data_request : Emitter → SubscriptionRequest → ℕ → ℕ → Sent
market_data_request e req now room = build e (b'V' ∷ []) now room (request_fields req)
