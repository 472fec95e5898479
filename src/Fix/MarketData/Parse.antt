-- ===== src/Fix/MarketData/Parse.antt =====
-- `parse_md_message` and `push_entry` of crates/jeed-fix/src/market_data.rs.
use jeed.Base.{ℕ, ◌+◌, ◌-◌, List, [], ◌∷◌, ◌++◌, Option, none, some, Bool, true, false, ◌||◌, not}
use jeed.Base.{Result, ok, err, ◌>>=◌, if◌then◌else◌, length, ltb, leb, ◌==◌, min}
use jeed.Fix.Error.{FixError}
use jeed.Fix.MsgType.{MsgType, market_data_incremental, from_value, is_market_data}
use jeed.Fix.TagValue.{Field, fields}
use jeed.Fix.Frame.{Frame}
use jeed.Fix.Value.{first_byte, as_u64, as_u32, as_scaled, as_scaled_unsigned, as_utc_timestamp}
use jeed.Fix.Value.{as_utc_date, as_utc_time, is_yes, first_or_zero, new_text}
use jeed.Fix.MarketData.Entry.{
  FixScales, MdEntryType, bid, offer, is_unset, entry_type_of, action_of,
}
use jeed.Fix.MarketData.Entry.{MdEntry, empty_entry, MdMessage, empty_message, md_max_entries}

abbrev pub is_group_tag : ℕ → Bool
is_group_tag tag =
    tag == 269
    || tag == 270
    || tag == 271
    || tag == 272
    || tag == 273
    || tag == 279
    || tag == 346
    || tag == 1023

-- What the loop keeps: the message so far, the open entry, the two level counters, and which of the
-- required fields have come.
pub record Decoder : Type 0 where
  pub msg : MdMessage
  pub cur : Option MdEntry
  pub bid_seen : ℕ
  pub ask_seen : ℕ
  pub have_msg_type : Bool
  pub have_seq : Bool

abbrev pub start : Decoder
start = record {
  msg = empty_message;
  cur = none;
  bid_seen = 0;
  ask_seen = 0;
  have_msg_type = false;
  have_seq = false;
}

-- `saturating_add(1)` on a `u8`
abbrev pub next_u8 : ℕ → ℕ
next_u8 n = min (n + 1) 255

-- The level counters once an entry of this type is counted.
abbrev pub count_bid : MdEntryType → ℕ → ℕ
count_bid bid n = next_u8 n
count_bid _ n = n

abbrev pub count_ask : MdEntryType → ℕ → ℕ
count_ask offer n = next_u8 n
count_ask _ n = n

abbrev pub implied_level : MdEntryType → ℕ → ℕ → ℕ
implied_level bid b a = b
implied_level offer b a = a
implied_level _ b a = 0

abbrev pub levelled : MdEntry → ℕ → ℕ → MdEntry
levelled e b a =
    if e.has_explicit_level then e else (record e { level = implied_level e.entry_type b a })

unfoldable pub push_entry : Decoder → MdEntry → Result FixError Decoder
push_entry d e =
    let count = length d.msg.entries in
    if is_unset e.entry_type
    then err (FixError.missing_tag 269)
    else (if leb md_max_entries count
        then err (
            FixError.too_many_entries
              (if ltb d.msg.declared_entries (count + 1) then count + 1 else d.msg.declared_entries)
              md_max_entries)
        else ok (record d {
          msg = record d.msg { entries = d.msg.entries ++ levelled e d.bid_seen d.ask_seen ∷ [] };
          bid_seen = count_bid e.entry_type d.bid_seen;
          ask_seen = count_ask e.entry_type d.ask_seen;
        }))

-- `if let Some(done) = cur.take() { push_entry(..)? }`
unfoldable pub close_entry : Decoder → Option MdEntry → Result FixError Decoder
close_entry d none = ok d
close_entry d (some done) = push_entry (record d { cur = none }) done

-- The field that opens an entry.
abbrev pub delimiter : MsgType → ℕ
delimiter market_data_incremental = 279
delimiter _ = 269

abbrev pub has_tag : ℕ → MdEntry → Bool
has_tag tag e =
    if tag == 269
    then not (is_unset e.entry_type)
    else (if tag == 270
        then e.has_price
        else (if tag == 271
            then e.has_size
            else (if tag == 272
                then e.has_date
                else (if tag == 273
                    then e.has_time
                    else (if tag == 346
                        then e.has_order_count
                        else (if tag == 1023 then e.has_explicit_level else false))))))

abbrev pub is_repeat : ℕ → Option MdEntry → Bool
is_repeat tag none = false
is_repeat tag (some e) = has_tag tag e

-- The `match tag` on the open entry.
unfoldable pub set_field : FixScales → Field → MdEntry → Result FixError MdEntry
set_field scales f e =
    if f.tag == 269
    then (first_byte f >>= (λ b. ok (record e { entry_type = entry_type_of b })))
    else (if f.tag == 279
        then (first_byte f >>= (λ b. action_of b) >>= (λ a. ok (record e { action = a })))
        else (if f.tag == 270
            then (as_scaled f scales.price >>= (λ v. ok (record e { price = v; has_price = true })))
            else (if f.tag == 271
                then (as_scaled_unsigned f scales.quantity
                    >>= (λ v. ok (record e { size = v; has_size = true })))
                else (if f.tag == 272
                    then (as_utc_date f >>= (λ v. ok (record e { date_ns = v; has_date = true })))
                    else (if f.tag == 273
                        then (as_utc_time f
                            >>= (λ v. ok (record e { time_ns = v; has_time = true })))
                        else (if f.tag == 346
                            then (as_u32 f >>= (λ v.
                                ok (record e { order_count = v; has_order_count = true })))
                            else (if f.tag == 1023
                                then (as_u32 f >>= (λ v. ok (record e {
                                  level = min (v - 1) 255;
                                  has_explicit_level = true;
                                })))
                                else ok e)))))))

unfoldable pub fill_entry : FixScales → Field → Decoder → Option MdEntry → Result FixError Decoder
fill_entry scales f d none = err (FixError.group_tag_outside_entry f.tag)
fill_entry scales f d (some e) = set_field scales f e >>= (λ e'. ok (record d { cur = some e' }))

unfoldable pub group_field : FixScales → Decoder → Field → Result FixError Decoder
group_field scales d f =
    if f.tag == delimiter d.msg.msg_type || is_repeat f.tag d.cur
    then (close_entry d d.cur >>= (λ d'. fill_entry scales f d' (some empty_entry)))
    else fill_entry scales f d d.cur

abbrev pub set_symbol : Decoder → List ℕ → Option MdEntry → Decoder
set_symbol d value none = record d { msg = record d.msg { symbol = new_text value } }
set_symbol d value (some e) = record d { cur = some (record e { symbol = new_text value }) }

abbrev pub set_msg_type : Decoder → List ℕ → Result FixError Decoder
set_msg_type d value =
    if is_market_data (from_value value)
    then ok (record d { msg = record d.msg { msg_type = from_value value }; have_msg_type = true })
    else err (FixError.unexpected_msg_type (first_or_zero value))

unfoldable pub plain_field : Decoder → Field → Result FixError Decoder
plain_field d f =
    if f.tag == 35
    then set_msg_type d f.value
    else (if f.tag == 34
        then (as_u64 f
            >>= (λ v. ok (record d { msg = record d.msg { msg_seq_num = v }; have_seq = true })))
        else (if f.tag == 52
            then (as_utc_timestamp f
                >>= (λ v. ok (record d { msg = record d.msg { sending_time = v } })))
            else (if f.tag == 43
                then ok (record d { msg = record d.msg { poss_dup = is_yes f } })
                else (if f.tag == 262
                    then ok (record d { msg = record d.msg { req_id = new_text f.value } })
                    else (if f.tag == 268
                        then (as_u32 f >>= (λ v.
                            ok (record d { msg = record d.msg { declared_entries = v } })))
                        else (if f.tag == 55 then ok (set_symbol d f.value d.cur) else ok d))))))

-- The loop's body.
unfoldable pub read_field : FixScales → Decoder → Field → Result FixError Decoder
read_field scales d f = if is_group_tag f.tag then group_field scales d f else plain_field d f

-- The loop, over the iterator's items.
unfoldable pub read_fields :
    FixScales → Decoder → List (Result FixError Field) → Result FixError Decoder
read_fields scales d [] = ok d
read_fields scales d (item ∷ items) = do
  f ← item
  d' ← read_field scales d f
  read_fields scales d' items

-- The checks after the loop.
unfoldable pub finish : Decoder → Result FixError MdMessage
finish d =
    if not d.have_msg_type
    then err (FixError.missing_tag 35)
    else (if not d.have_seq
        then err (FixError.missing_tag 34)
        else (if d.msg.declared_entries == length d.msg.entries
            then ok d.msg
            else err (FixError.entry_count d.msg.declared_entries (length d.msg.entries))))

unfoldable pub parse_md_message : Frame → FixScales → Result FixError MdMessage
parse_md_message frame scales = do
  d ← read_fields scales start (fields frame.body)
  d' ← close_entry d d.cur
  finish d'
