-- ===== src/Fix/Admin.antt =====
-- `msg_type` and `parse_admin_message` of crates/jeed-fix/src/session.rs.
use jeed.Base.{ℕ, List, [], ◌∷◌, Option, none, some, Bool, true, false, not}
use jeed.Base.{Result, ok, err, ◌>>=◌, if◌then◌else◌, ◌==◌}
use jeed.Fix.Error.{FixError}
use jeed.Fix.MsgType.{MsgType, from_value, is_admin}
use jeed.Fix.TagValue.{Field, fields}
use jeed.Fix.Frame.{Frame}
use jeed.Fix.Value.{as_u64, as_u32, as_utc_timestamp, is_yes, first_or_zero, new_text, empty_text}
use jeed.Fix.Session.{AdminMessage}

abbrev type_of_field : Field → Option MsgType
type_of_field f = if f.tag == 35 then some (from_value f.value) else none

unfoldable pub first_type : List (Result FixError Field) → Result FixError MsgType
first_type [] = err (FixError.missing_tag 35)
first_type (err e ∷ items) = err e
first_type (ok f ∷ items) = elim (type_of_field f) [ some kind ↦ ok kind | none ↦ first_type items ]

unfoldable pub msg_type : Frame → Result FixError MsgType
msg_type frame = first_type (fields frame.body)

abbrev pub empty_admin : AdminMessage
empty_admin = record {
  msg_type = MsgType.other 0;
  msg_seq_num = 0;
  sending_time = 0;
  poss_dup = false;
  gap_fill = false;
  heartbeat_secs = none;
  new_seq_no = none;
  begin_seq_no = none;
  end_seq_no = none;
  test_req_id = empty_text;
}

-- What the loop keeps: the message, and which of the required fields have come.
pub record Decoder : Type 0 where
  pub msg : AdminMessage
  pub have_msg_type : Bool
  pub have_seq : Bool

abbrev pub start : Decoder
start = record { msg = empty_admin; have_msg_type = false; have_seq = false }

abbrev pub set_msg_type : Decoder → List ℕ → Result FixError Decoder
set_msg_type d value =
    if is_admin (from_value value)
    then ok (record d { msg = record d.msg { msg_type = from_value value }; have_msg_type = true })
    else err (FixError.unexpected_msg_type (first_or_zero value))

-- The loop's body.
unfoldable pub read_field : Decoder → Field → Result FixError Decoder
read_field d f =
    if f.tag == 35
    then set_msg_type d f.value
    else (if f.tag == 34
        then (as_u64 f
            >>= (λ v. ok (record d { msg = record d.msg { msg_seq_num = v }; have_seq = true })))
        else (if f.tag == 52
            then (as_utc_timestamp f
                >>= (λ v. ok (record d { msg = record d.msg { sending_time = v } })))
            else (if f.tag == 43
                then ok (record d { msg = record d.msg { poss_dup = is_yes f } })
                else (if f.tag == 123
                    then ok (record d { msg = record d.msg { gap_fill = is_yes f } })
                    else (if f.tag == 108
                        then (as_u32 f >>= (λ v.
                            ok (record d { msg = record d.msg { heartbeat_secs = some v } })))
                        else (if f.tag == 36
                            then (as_u64 f >>= (λ v.
                                ok (record d { msg = record d.msg { new_seq_no = some v } })))
                            else (if f.tag == 7
                                then (as_u64 f >>= (λ v.
                                    ok (record d { msg = record d.msg { begin_seq_no = some v } })))
                                else (if f.tag == 16
                                    then (as_u64 f >>= (λ v.
                                        ok (record d {
                                          msg = record d.msg { end_seq_no = some v };
                                        })))
                                    else (if f.tag == 112
                                        then ok (record d {
                                          msg = record d.msg { test_req_id = new_text f.value };
                                        })
                                        else ok d)))))))))

unfoldable pub read_fields : Decoder → List (Result FixError Field) → Result FixError Decoder
read_fields d [] = ok d
read_fields d (item ∷ items) = do f ← item; d' ← read_field d f; read_fields d' items

-- The checks after the loop.
unfoldable pub finish : Decoder → Result FixError AdminMessage
finish d =
    if not d.have_msg_type
    then err (FixError.missing_tag 35)
    else (if not d.have_seq then err (FixError.missing_tag 34) else ok d.msg)

unfoldable pub parse_admin_message : Frame → Result FixError AdminMessage
parse_admin_message frame = do d ← read_fields start (fields frame.body); finish d
