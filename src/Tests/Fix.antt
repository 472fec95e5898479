-- ===== src/Tests/Fix.antt =====
-- FIX: numerals, fields, a heartbeat message, a stream of two messages and a half, a session.
use jeed.Base.{ℕ, ◌+◌, ◌≤◌, ◌<◌, ◌≡◌, refl, arith}
use jeed.Base.{List, [], ◌∷◌, ◌++◌, map, true, false, some, ok, err, length, take, All}
use jeed.Fix.Error.{incomplete}
use jeed.Fix.TagValue.{Field, soh, parse_u64, fields, collect, new}
use jeed.Fix.TagValue.Digits.{parse_u64_lem}
use jeed.Fix.TagValue.Numeral.{numeral}
use jeed.Fix.TagValue.Scan.{encode_fields, IsField, fields-encode_fields, collect_fuel}
use jeed.Fix.Frame.{frame}
use jeed.Fix.Frame.Message.{message, message_then, IsMessage, frame-message_then}
use jeed.Fix.Frame.Prefix.{frame-take-message}
use jeed.Fix.FrameBuffer.{FrameBuffer, filled}
use jeed.Fix.FrameBuffer.Queue.{IsValid}
use jeed.Fix.FrameBuffer.Drain.{drain, Text, IsText, stream, frame_of, Drained, drain-stream}
use jeed.Fix.Session.{SessionState}
use jeed.Fix.Session
use jeed.Fix.Session.Counters.{
  Arrival, observe_all, Balanced, observe_all-Balanced, observe_all-highest,
}

parse_u64_lem_example : parse_u64 (b'4' ∷ b'2' ∷ []) ≡ some 42
parse_u64_lem_example = parse_u64_lem (b'4' ∷ b'2' ∷ []) (omega arith)

-- `35=0<SOH>34=7<SOH>`
abbrev two_fields : List Field
two_fields = record { tag = 35; value = b'0' ∷ [] } ∷ record { tag = 34; value = b'7' ∷ [] } ∷ []

two_fields-IsField : All IsField two_fields
two_fields-IsField = (
  record { tag_fits = omega arith; value_free = (refl, tt) },
  (record { tag_fits = omega arith; value_free = (refl, tt) }, tt),
)

fields-encode_fields_example : fields (encode_fields two_fields) ≡ map ok two_fields
fields-encode_fields_example = fields-encode_fields two_fields two_fields-IsField

collect_fuel_example : collect (3 + 5) (new (b'3' ∷ b'5' ∷ [])) ≡ collect 3 (new (b'3' ∷ b'5' ∷ []))
collect_fuel_example = collect_fuel 3 5 (new (b'3' ∷ b'5' ∷ [])) (omega arith)

abbrev fix_44 : List ℕ
fix_44 = b'F' ∷ b'I' ∷ b'X' ∷ []

abbrev heartbeat_text : List ℕ
heartbeat_text = b'3' ∷ b'5' ∷ b'=' ∷ b'0' ∷ []

heartbeat-IsMessage : IsMessage fix_44 heartbeat_text
heartbeat-IsMessage = record {
  some_begin = omega arith;
  begin_free = (refl, (refl, (refl, tt)));
  fits = omega arith;
}

frame-message_then_example :
    frame (message_then fix_44 heartbeat_text (b'8' ∷ []))
    ≡ ok (record {
      bytes = message fix_44 heartbeat_text;
      begin = fix_44;
      body = heartbeat_text ++ (soh ∷ []);
    })
frame-message_then_example =
    frame-message_then fix_44 heartbeat_text (b'8' ∷ []) heartbeat-IsMessage

message_long : 12 < length (message fix_44 heartbeat_text)
unfolding numeral
message_long = omega arith

frame-take-message_example : frame (take 12 (message fix_44 heartbeat_text)) ≡ err incomplete
frame-take-message_example =
    frame-take-message fix_44 heartbeat_text 12 heartbeat-IsMessage (omega arith) message_long

abbrev heartbeat : Text
heartbeat = (fix_44, heartbeat_text)

heartbeat-IsText : IsText heartbeat
heartbeat-IsText = (heartbeat-IsMessage, omega arith)

-- A whole message of 22 bytes, 12 bytes of the next, and six bytes of an earlier read.
abbrev half_full : FrameBuffer
half_full = record {
  buf =
      stream (heartbeat ∷ []) (take 12 (message fix_44 heartbeat_text))
      ++ (9 ∷ 9 ∷ 9 ∷ 9 ∷ 9 ∷ 9 ∷ []);
  len = 34;
}

half_full-IsValid : IsValid 40 half_full
unfolding numeral
half_full-IsValid = record { storage = omega arith; within = omega arith }

half_full-filled :
    filled half_full ≡ stream (heartbeat ∷ []) (take 12 (message fix_44 heartbeat_text))
unfolding numeral
half_full-filled = refl

short_enough : length (message fix_44 heartbeat_text) ≤ 40
unfolding numeral
short_enough = omega arith

drain-stream_example :
    Drained 40
      (map frame_of (heartbeat ∷ []))
      (take 12 (message fix_44 heartbeat_text))
      (drain 40 41 half_full [])
drain-stream_example =
    drain-stream 40 heartbeat 12 heartbeat-IsText short_enough message_long (heartbeat ∷ [])
      half_full (heartbeat-IsText, tt) half_full-IsValid half_full-filled

abbrev arrivals : List Arrival
arrivals =
    record { seq = 1; poss_dup = false; recv_ns = 10 }
    ∷ record { seq = 4; poss_dup = false; recv_ns = 20 }
    ∷ record { seq = 2; poss_dup = true; recv_ns = 30 }
    ∷ []

observe_all-Balanced_example : Balanced (observe_all Session.new arrivals)
observe_all-Balanced_example = observe_all-Balanced Session.new arrivals refl

abbrev fourth : SessionState
fourth = record Session.new { next_expected = 4; heartbeat_interval_ns = 100; last_recv_ns = 50 }

-- Over a gap, and back.
abbrev jumps : List Arrival
jumps =
    record { seq = 9; poss_dup = false; recv_ns = 60 }
    ∷ record { seq = 5; poss_dup = true; recv_ns = 70 }
    ∷ []

observe_all-highest_example : (observe_all fourth jumps).next_expected ≡ 10
observe_all-highest_example = observe_all-highest fourth jumps (omega arith, (omega arith, tt))
