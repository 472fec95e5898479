-- ===== src/Fix/Emit/Messages.antt =====
-- What each of `Emitter`'s messages adds to the standard header.
use jeed.Base.{ℕ, List, [], ◌∷◌, Option, some, none, Bool, true, false, map, length, if◌then◌else◌}
use jeed.Base.{◌≡◌, refl, ok, All, arith, ◌<◌, ◌^◌}
use jeed.Fix.Frame.{frame}
use jeed.Fix.Session.{add_u64}
use jeed.Fix.Emit.Read.{IsReady, build-read, numeral-Free}
use jeed.Fix.TagValue.{Field, fields}
use jeed.Fix.TagValue.Scan.{encode_fields, IsField}
use jeed.Fix.TagValue.Numeral.{numeral}
use jeed.Fix.Emit.Writer.{Writer, tag, tag_u64}
use jeed.Fix.Emit.Writes.{Writes, Writes-refl, tag-Writes, tag_u64-Writes}
use jeed.Fix.Emit.Built.{cons-Writes, field, header_fields}
use jeed.Fix.Emit.Emitter.{
  Emitter, logon, market_data_request, logon_fields, optional_field, reset_fields, each_field,
  request_fields,
}
use jeed.Fix.Emit.Emitter.{SubscriptionRequest, subscription_byte, entry_type_text, update_text}

-- A writing of one field, and of a number in one.
abbrev tag_step :
    (t : ℕ) (v : List ℕ) (fs : List Field) (w w' : Writer)
    → Writes (tag w t v) w' (encode_fields fs)
    → Writes w w' (encode_fields (field t v ∷ fs))
tag_step t v fs w w' h = cons-Writes (field t v) fs w (tag w t v) w' (tag-Writes w t v) h

abbrev u64_step :
    (t n : ℕ) (fs : List Field) (w w' : Writer)
    → Writes (tag_u64 w t n) w' (encode_fields fs)
    → Writes w w' (encode_fields (field t (numeral n) ∷ fs))
u64_step t n fs w w' h =
    cons-Writes (field t (numeral n)) fs w (tag_u64 w t n) w' (tag_u64-Writes w t n) h

abbrev pub optional : ℕ → Option (List ℕ) → List Field → List Field
optional t none fs = fs
optional t (some v) fs = field t v ∷ fs

abbrev pub each : ℕ → List (List ℕ) → List Field → List Field
each t [] fs = fs
each t (v ∷ vs) fs = field t v ∷ each t vs fs

optional_step :
    (t : ℕ) (v : Option (List ℕ)) (fs : List Field) (w w' : Writer)
    → Writes (optional_field t v w) w' (encode_fields fs)
    → Writes w w' (encode_fields (optional t v fs))
optional_step t none fs w w' h = h
optional_step t (some v) fs w w' h = tag_step t v fs w w' h

each_step :
    (t : ℕ) (vs : List (List ℕ)) (fs : List Field) (w w' : Writer)
    → Writes (each_field t vs w) w' (encode_fields fs)
    → Writes w w' (encode_fields (each t vs fs))
unfolding each_field
each_step t [] fs w w' h = h
each_step t (v ∷ vs) fs w w' h =
    tag_step t v (each t vs fs) w w' (each_step t vs fs (tag w t v) w' h)

abbrev pub logon_added : ℕ → Bool → List Field
logon_added secs reset =
    field 98 (numeral 0)
    ∷ field 108 (numeral secs)
    ∷ (if reset then field 141 (b'Y' ∷ []) ∷ [] else [])

pub logon_fields-Writes :
    (secs : ℕ) (reset : Bool) (w : Writer)
    → Writes w (logon_fields secs reset w) (encode_fields (logon_added secs reset))
logon_fields-Writes secs true w =
    u64_step 98 0 (field 108 (numeral secs) ∷ field 141 (b'Y' ∷ []) ∷ []) w _ (
      u64_step 108 secs (field 141 (b'Y' ∷ []) ∷ []) (tag_u64 w 98 0) _
        (tag_step 141 (b'Y' ∷ []) [] (tag_u64 (tag_u64 w 98 0) 108 secs) _ (Writes-refl _)))
logon_fields-Writes secs false w =
    u64_step 98 0 (field 108 (numeral secs) ∷ []) w _
      (u64_step 108 secs [] (tag_u64 w 98 0) _ (Writes-refl _))

pub reset_fields-Writes :
    (seq : ℕ) (gap_fill : Bool) (w : Writer)
    → Writes w (reset_fields seq gap_fill w) (
        encode_fields
          (field 36 (numeral seq) ∷ (if gap_fill then field 123 (b'Y' ∷ []) ∷ [] else [])))
reset_fields-Writes seq true w =
    u64_step 36 seq (field 123 (b'Y' ∷ []) ∷ []) w _
      (tag_step 123 (b'Y' ∷ []) [] (tag_u64 w 36 seq) _ (Writes-refl _))
reset_fields-Writes seq false w = u64_step 36 seq [] w _ (Writes-refl _)

abbrev pub request_added : SubscriptionRequest → List Field
request_added req =
    field 262 req.req_id
    ∷ field 263 (subscription_byte req.subscription ∷ [])
    ∷ field 264 (numeral req.depth)
    ∷ optional 265 (update_text req.update_type) (
        field 267 (numeral (length req.entry_types))
        ∷ each 269 (map entry_type_text req.entry_types)
            (field 146 (numeral (length req.symbols)) ∷ each 55 req.symbols []))

pub request_fields-Writes :
    (req : SubscriptionRequest) (w : Writer)
    → Writes w (request_fields req w) (encode_fields (request_added req))
request_fields-Writes req w = tag_step 262 req.req_id rest₁ w end (
    tag_step 263 kind rest₂ w₁ end (
      u64_step 264 req.depth rest₃ w₂ end (
        optional_step 265 (update_text req.update_type) rest₄ w₃ end (
          u64_step 267 (length req.entry_types) rest₅ w₄ end (
            each_step 269 (map entry_type_text req.entry_types) rest₆ w₅ end (
              u64_step 146 (length req.symbols) (each 55 req.symbols []) w₆ end
                (each_step 55 req.symbols [] w₇ end (Writes-refl end))))))))
  where
    kind : List ℕ
    kind = subscription_byte req.subscription ∷ []

    rest₆ : List Field
    rest₆ = field 146 (numeral (length req.symbols)) ∷ each 55 req.symbols []

    rest₅ : List Field
    rest₅ = each 269 (map entry_type_text req.entry_types) rest₆

    rest₄ : List Field
    rest₄ = field 267 (numeral (length req.entry_types)) ∷ rest₅

    rest₃ : List Field
    rest₃ = optional 265 (update_text req.update_type) rest₄

    rest₂ : List Field
    rest₂ = field 264 (numeral req.depth) ∷ rest₃

    rest₁ : List Field
    rest₁ = field 263 kind ∷ rest₂

    w₁ : Writer
    w₁ = tag w 262 req.req_id

    w₂ : Writer
    w₂ = tag w₁ 263 kind

    w₃ : Writer
    w₃ = tag_u64 w₂ 264 req.depth

    w₄ : Writer
    w₄ = optional_field 265 (update_text req.update_type) w₃

    w₅ : Writer
    w₅ = tag_u64 w₄ 267 (length req.entry_types)

    w₆ : Writer
    w₆ = each_field 269 (map entry_type_text req.entry_types) w₅

    w₇ : Writer
    w₇ = tag_u64 w₆ 146 (length req.symbols)

    end : Writer
    end = each_field 55 req.symbols w₇

added-IsField : (secs : ℕ) (reset : Bool) → secs < 2 ^ 32 → All IsField (logon_added secs reset)
added-IsField secs true h = (
  record { tag_fits = omega arith; value_free = numeral-Free 0 (omega arith) },
  (
    record { tag_fits = omega arith; value_free = numeral-Free secs (omega (arith, h)) },
    (record { tag_fits = omega arith; value_free = (refl, tt) }, tt),
  ),
)
added-IsField secs false h = (
  record { tag_fits = omega arith; value_free = numeral-Free 0 (omega arith) },
  (record { tag_fits = omega arith; value_free = numeral-Free secs (omega (arith, h)) }, tt),
)

-- A logon that was written is read as one message: the header of type `A`, no encryption, the
-- heartbeat interval, and `141=Y` exactly where a reset was asked for.
pub logon-read :
    (e : Emitter) (secs : ℕ) (reset : Bool) (now room : ℕ) (out : List ℕ) (e' : Emitter)
    → logon e secs reset now room ≡ (ok out, e')
    → IsReady e
    → now < 2 ^ 64
    → secs < 2 ^ 32
    → (body : List ℕ) × (frame out ≡ ok (record { bytes = out; begin = e.begin; body = body }))
      × (fields body ≡ map ok (header_fields e (b'A' ∷ []) now (logon_added secs reset)))
      × (e'.next_seq ≡ add_u64 e.next_seq 1)
      × (e'.last_sent_ns ≡ now)
unfolding logon
logon-read e secs reset now room out e' sent v h fits =
    build-read e (b'A' ∷ []) now (logon_fields secs reset) (logon_added secs reset)
      (logon_fields-Writes secs reset) room out e' sent v h (refl, tt)
      (added-IsField secs reset fits)

-- A market data request that was written is read as one message of type `V`: the request's fields in
-- the order of the protocol, with each count in front of as many entry types or symbols, provided that
-- no text of it holds a separator.
pub market_data_request-read :
    (e : Emitter) (req : SubscriptionRequest) (now room : ℕ) (out : List ℕ) (e' : Emitter)
    → market_data_request e req now room ≡ (ok out, e')
    → IsReady e
    → now < 2 ^ 64
    → All IsField (request_added req)
    → (body : List ℕ) × (frame out ≡ ok (record { bytes = out; begin = e.begin; body = body }))
      × (fields body ≡ map ok (header_fields e (b'V' ∷ []) now (request_added req)))
      × (e'.next_seq ≡ add_u64 e.next_seq 1)
      × (e'.last_sent_ns ≡ now)
unfolding market_data_request
market_data_request-read e req now room out e' sent v h are_fields =
    build-read e (b'V' ∷ []) now (request_fields req) (request_added req)
      (request_fields-Writes req) room out e' sent v h (refl, tt) are_fields
