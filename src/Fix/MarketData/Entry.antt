-- ===== src/Fix/MarketData/Entry.antt =====
-- What crates/jeed-fix/src/market_data.rs decodes into: entry types, actions, entries, messages.
use jeed.Base.{ℕ, ◌+◌, ◌%◌, ◌^◌, List, [], ◌∷◌, Option, none, some, Bool, true, false, ◌&&◌, ◌==◌}
use jeed.Base.{Result, ok, err, if◌then◌else◌}
use jeed.Base.Ints.{ℤ, pos}
use jeed.Fix.Error.{FixError}
use jeed.Fix.MsgType.{MsgType, market_data_snapshot}
use jeed.Wire.Types.{Scale}
use jeed.Fix.Value.{FixText, empty_text, is_empty_text, as_bytes}

abbrev pub md_max_entries : ℕ
md_max_entries = 32

pub record FixScales : Type 0 where
  pub price : Scale
  pub quantity : Scale

pub data MdEntryType : Type 0 where
  bid offer trade index_value opening_price closing_price settlement_price : MdEntryType
  session_high session_low session_vwap trade_volume open_interest : MdEntryType
  other : ℕ → MdEntryType

unfoldable pub entry_type_of : ℕ → MdEntryType
entry_type_of b =
    if b == b'0'
    then bid
    else (if b == b'1'
        then offer
        else (if b == b'2'
            then trade
            else (if b == b'3'
                then index_value
                else (if b == b'4'
                    then opening_price
                    else (if b == b'5'
                        then closing_price
                        else (if b == b'6'
                            then settlement_price
                            else (if b == b'7'
                                then session_high
                                else (if b == b'8'
                                    then session_low
                                    else (if b == b'9'
                                        then session_vwap
                                        else (if b == b'B'
                                            then trade_volume
                                            else (if b == b'C'
                                                then open_interest
                                                else other b)))))))))))

unfoldable pub as_byte : MdEntryType → ℕ
as_byte bid = b'0'
as_byte offer = b'1'
as_byte trade = b'2'
as_byte index_value = b'3'
as_byte opening_price = b'4'
as_byte closing_price = b'5'
as_byte settlement_price = b'6'
as_byte session_high = b'7'
as_byte session_low = b'8'
as_byte session_vwap = b'9'
as_byte trade_volume = b'B'
as_byte open_interest = b'C'
as_byte (other code) = code

abbrev pub is_book_side : MdEntryType → Bool
is_book_side bid = true
is_book_side offer = true
is_book_side _ = false

-- `== MdEntryType::Other { code: 0 }`
abbrev pub is_unset : MdEntryType → Bool
is_unset (other code) = code == 0
is_unset _ = false

pub data MdUpdateAction : Type 0 where
  new change delete delete_thru delete_from overlay : MdUpdateAction

unfoldable pub action_of : ℕ → Result FixError MdUpdateAction
action_of b =
    if b == b'0'
    then ok new
    else (if b == b'1'
        then ok change
        else (if b == b'2'
            then ok delete
            else (if b == b'3'
                then ok delete_thru
                else (if b == b'4'
                    then ok delete_from
                    else (if b == b'5'
                        then ok overlay
                        else err (FixError.unknown_update_action b))))))

pub record MdEntry : Type 0 where
  pub entry_type : MdEntryType
  pub action : MdUpdateAction
  pub price : ℤ
  pub size : ℕ
  pub date_ns : ℕ
  pub time_ns : ℕ
  pub order_count : ℕ
  pub level : ℕ
  pub symbol : FixText
  pub has_price : Bool
  pub has_size : Bool
  pub has_date : Bool
  pub has_time : Bool
  pub has_order_count : Bool
  pub has_explicit_level : Bool

abbrev pub empty_entry : MdEntry
empty_entry = record {
  entry_type = other 0;
  action = new;
  price = pos 0;
  size = 0;
  date_ns = 0;
  time_ns = 0;
  order_count = 0;
  level = 0;
  symbol = empty_text;
  has_price = false;
  has_size = false;
  has_date = false;
  has_time = false;
  has_order_count = false;
  has_explicit_level = false;
}

-- `MdEntry::venue_time`
abbrev pub entry_venue_time : MdEntry → Option ℕ
entry_venue_time e =
    if e.has_date && e.has_time then some ((e.date_ns + e.time_ns) % 2 ^ 64) else none

-- `entries` is the part of the array that `count` covers.
pub record MdMessage : Type 0 where
  pub msg_type : MsgType
  pub msg_seq_num : ℕ
  pub sending_time : ℕ
  pub req_id : FixText
  pub symbol : FixText
  pub declared_entries : ℕ
  pub poss_dup : Bool
  pub entries : List MdEntry

abbrev pub empty_message : MdMessage
empty_message = record {
  msg_type = MsgType.other 0;
  msg_seq_num = 0;
  sending_time = 0;
  req_id = empty_text;
  symbol = empty_text;
  declared_entries = 0;
  poss_dup = false;
  entries = [];
}

abbrev pub is_snapshot_type : MsgType → Bool
is_snapshot_type market_data_snapshot = true
is_snapshot_type _ = false

abbrev pub is_snapshot : MdMessage → Bool
is_snapshot m = is_snapshot_type m.msg_type

abbrev pub entry_symbol : MdMessage → MdEntry → List ℕ
entry_symbol m e = if is_empty_text e.symbol then as_bytes m.symbol else as_bytes e.symbol

abbrev first_venue_time : List MdEntry → Option ℕ
first_venue_time [] = none
first_venue_time (e ∷ es) = elim (entry_venue_time e) [
  | some t ↦ some t
  | none ↦ first_venue_time es
]

-- `MdMessage::venue_time`
abbrev pub venue_time : MdMessage → Option ℕ
venue_time m = first_venue_time m.entries
