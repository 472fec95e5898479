-- ===== src/Tests/Emit.antt =====
-- FIX messages that a session sends: a logon and a subscription, and what reads them back.
use jeed.Base.{ℕ, List, [], ◌∷◌, map, true, false, ◌<◌, ◌^◌, some, ok, err, arith, ◌≡◌, All, refl}
use jeed.Fix.Frame.{frame}
use jeed.Fix.TagValue.{fields}
use jeed.Fix.TagValue.Scan.{encode_fields, IsField}
use jeed.Fix.Session.{add_u64}
use jeed.Fix.Time.{parse_utc_timestamp}
use jeed.Fix.MarketData.Entry.{bid, offer}
use jeed.Fix.TagValue.Numeral.{numeral}
use jeed.Fix.TagValue.{is_soh}
use jeed.Fix.Value.{new_text}
use jeed.Fix.MarketData.Entry.{as_byte}
use jeed.Fix.Time.Civil.{civil_from_days}
use jeed.Base.Ints.{wrap_i64}
use jeed.Fix.Emit.Emitter.{body_writer, head_writer, trailer_writer, each_field}
use jeed.Fix.Emit.Writer.{
  tag, byte, bytes, write_u64, back_to_front, tag_u64, pad, zeros, sending_time,
}
use jeed.Fix.Emit.StampRead.{parse_utc_timestamp-sending_time}
use jeed.Fix.Emit.Emitter.{
  Emitter, Sent, new_emitter, logon, logon_fields, build, SubscriptionRequest,
}
use jeed.Fix.Emit.Emitter.{snapshot_plus_updates, market_data_request}
use jeed.Fix.Emit.Built.{field, header_fields, answer_of}
use jeed.Fix.Emit.Sent.{build_lem, sent_fields, sent_bytes}
use jeed.Fix.Emit.Read.{IsReady, build-read}
use jeed.Fix.Emit.Messages.{logon_added, logon_fields-Writes, request_added}
use jeed.Fix.Emit.Messages.{market_data_request-read}

-- 2026-07-10 13:14:15.123
abbrev an_instant : ℕ
an_instant = 1_783_689_255_123_456_789

parse_utc_timestamp-sending_time_example :
    parse_utc_timestamp (sending_time an_instant) ≡ some 1_783_689_255_123_000_000
parse_utc_timestamp-sending_time_example = parse_utc_timestamp-sending_time an_instant (omega arith)

abbrev jeed_to_venue : Emitter
jeed_to_venue = new_emitter (b'J' ∷ []) (b'V' ∷ [])

abbrev bytes_of : Sent → List ℕ
bytes_of (ok out, e) = out
bytes_of (err error, e) = []

abbrev logon_out : List ℕ
logon_out = bytes_of (logon jeed_to_venue 30 true an_instant 4096)

abbrev after_logon : Emitter
after_logon = record jeed_to_venue { next_seq = 2; last_sent_ns = an_instant }

logon_sent : logon jeed_to_venue 30 true an_instant 4096 ≡ (ok logon_out, after_logon)
unfolding logon build body_writer tag byte bytes write_u64 back_to_front tag_u64 new_text
    sending_time pad zeros civil_from_days wrap_i64 head_writer trailer_writer
logon_sent = refl

jeed_to_venue-IsReady : IsReady jeed_to_venue
unfolding new_text
jeed_to_venue-IsReady = record {
  some_begin = omega arith;
  begin_free = (refl, (refl, (refl, (refl, (refl, (refl, (refl, tt)))))));
  sender_free = (refl, tt);
  target_free = (refl, tt);
  seq_fits = omega arith;
}

build_lem_example :
    build jeed_to_venue (b'A' ∷ []) an_instant 40 (logon_fields 30 true)
    ≡ answer_of jeed_to_venue an_instant 40
        (encode_fields (
          sent_fields jeed_to_venue
            (b'A' ∷ [])
            an_instant
            (logon_fields 30 true)
            (logon_added 30 true)
            (logon_fields-Writes 30 true)))
        (sent_bytes jeed_to_venue
          (b'A' ∷ [])
          an_instant
          (logon_fields 30 true)
          (logon_added 30 true)
          (logon_fields-Writes 30 true))
build_lem_example =
    build_lem jeed_to_venue (b'A' ∷ []) an_instant (logon_fields 30 true) (logon_added 30 true)
      (logon_fields-Writes 30 true) 40

logon_built :
    build jeed_to_venue (b'A' ∷ []) an_instant 4096 (logon_fields 30 true)
    ≡ (ok logon_out, after_logon)
unfolding logon
logon_built = logon_sent

logon_added-IsField : All IsField (logon_added 30 true)
unfolding numeral
logon_added-IsField = (
  record { tag_fits = omega arith; value_free = (refl, tt) },
  (
    record { tag_fits = omega arith; value_free = (refl, (refl, tt)) },
    (record { tag_fits = omega arith; value_free = (refl, tt) }, tt),
  ),
)

build-read_example :
    (body : List ℕ) × (frame logon_out
      ≡ ok (record { bytes = logon_out; begin = jeed_to_venue.begin; body = body }))
    × (fields body
        ≡ map ok (header_fields jeed_to_venue (b'A' ∷ []) an_instant (logon_added 30 true)))
    × (after_logon.next_seq ≡ add_u64 jeed_to_venue.next_seq 1)
    × (after_logon.last_sent_ns ≡ an_instant)
build-read_example =
    build-read jeed_to_venue (b'A' ∷ []) an_instant (logon_fields 30 true) (logon_added 30 true)
      (logon_fields-Writes 30 true) 4096 logon_out after_logon logon_built jeed_to_venue-IsReady
      (omega arith) (refl, tt) logon_added-IsField

-- Both sides of a euro pair, ten levels deep.
abbrev subscription_request : SubscriptionRequest
subscription_request = record {
  req_id = b'7' ∷ [];
  subscription = snapshot_plus_updates;
  depth = 10;
  update_type = some b'1';
  entry_types = bid ∷ offer ∷ [];
  symbols = (b'E' ∷ b'U' ∷ []) ∷ [];
}

abbrev request_out : List ℕ
request_out = bytes_of (market_data_request jeed_to_venue subscription_request an_instant 4096)

request_sent :
    market_data_request jeed_to_venue subscription_request an_instant 4096
    ≡ (ok request_out, after_logon)
unfolding market_data_request build body_writer tag byte bytes write_u64 back_to_front tag_u64
    new_text sending_time pad zeros civil_from_days wrap_i64 head_writer trailer_writer each_field
    as_byte
request_sent = refl

one_byte-IsField : (t b : ℕ) → t < 2 ^ 32 → is_soh b ≡ false → IsField (field t (b ∷ []))
one_byte-IsField t b fits free = record { tag_fits = fits; value_free = (free, tt) }

two_bytes-IsField :
    (t a b : ℕ) → t < 2 ^ 32 → is_soh a ≡ false → is_soh b ≡ false → IsField (field t (a ∷ b ∷ []))
two_bytes-IsField t a b fits first second = record {
  tag_fits = fits;
  value_free = (first, (second, tt));
}

request-IsField : All IsField (request_added subscription_request)
unfolding numeral as_byte
request-IsField = (
  one_byte-IsField 262 b'7' (omega arith) refl,
  (
    one_byte-IsField 263 b'1' (omega arith) refl,
    (
      two_bytes-IsField 264 b'1' b'0' (omega arith) refl refl,
      (
        one_byte-IsField 265 b'1' (omega arith) refl,
        (
          one_byte-IsField 267 b'2' (omega arith) refl,
          (
            one_byte-IsField 269 b'0' (omega arith) refl,
            (
              one_byte-IsField 269 b'1' (omega arith) refl,
              (
                one_byte-IsField 146 b'1' (omega arith) refl,
                (two_bytes-IsField 55 b'E' b'U' (omega arith) refl refl, tt),
              ),
            ),
          ),
        ),
      ),
    ),
  ),
)

market_data_request-read_example :
    (body : List ℕ) × (frame request_out
      ≡ ok (record { bytes = request_out; begin = jeed_to_venue.begin; body = body }))
    × (fields body
        ≡ map ok (
            header_fields jeed_to_venue
              (b'V' ∷ [])
              an_instant
              (request_added subscription_request)))
    × (after_logon.next_seq ≡ add_u64 jeed_to_venue.next_seq 1)
    × (after_logon.last_sent_ns ≡ an_instant)
market_data_request-read_example =
    market_data_request-read jeed_to_venue subscription_request an_instant 4096 request_out
      after_logon request_sent jeed_to_venue-IsReady (omega arith) request-IsField
