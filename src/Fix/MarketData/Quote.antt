-- ===== src/Fix/MarketData/Quote.antt =====
-- The written form of a quote in a market data message of crates/jeed-fix/src/market_data.rs, and the
-- entry that it stands for.
use jeed.Base.{ℕ, ◌+◌, ◌^◌, ◌≤◌, ◌<◌, ◌≡◌, ◌∙◌, refl, arith}
use jeed.Base.{List, [], ◌∷◌, ◌++◌, Option, Bool, true, false, ◌||◌, ◌==◌, if◌then◌else◌}
use jeed.Base.{ok, leb, length, take, drop, All}
use jeed.Fix.MsgType.{market_data_incremental}
use jeed.Fix.TagValue.{Field}
use jeed.Fix.TagValue.Numeral.{numeral}
use jeed.Fix.Decimal.{parse_scaled_decimal, signed}
use jeed.Wire.Types.{Scale, decimals}
use jeed.Fix.Decimal.Exact.{IsDigit, sign_text, point_text, frac_of, scaled_value, all_zero}
use jeed.Fix.Decimal.Exact.{parse_scaled_decimal_lem}
use jeed.Fix.Value.{new_text}
use jeed.Fix.MarketData.Entry.{
  FixScales, MdEntryType, bid, offer, is_unset, entry_type_of, action_of,
}
use jeed.Fix.MarketData.Entry.{
  MdUpdateAction, new, change, delete, delete_thru, delete_from, overlay,
}
use jeed.Fix.MarketData.Entry.{MdEntry, empty_entry, MdMessage, empty_message}
use jeed.Fix.MarketData.Parse.{is_group_tag, count_bid, count_ask, implied_level}

-- A written decimal without its sign.
pub record Amount : Type 0 where
  pub whole : List ℕ
  pub frac : Option (List ℕ)

abbrev pub amount_text : Bool → Amount → List ℕ
amount_text negative m = sign_text negative ++ (m.whole ++ point_text m.frac)

abbrev pub amount_value : Scale → Amount → ℕ
amount_value scale m =
    scaled_value (decimals scale) m.whole (take (decimals scale) (frac_of m.frac))

-- Digits, one at least, which the scale holds exactly.
pub record IsAmount (scale : Scale) (m : Amount) : Type 0 where
  pub whole_digits : All IsDigit m.whole
  pub rest_digits : All IsDigit (frac_of m.frac)
  pub some_digit : 1 ≤ length m.whole + length (frac_of m.frac)
  pub fits : amount_value scale m < 2 ^ 63
  pub exact : all_zero (drop (decimals scale) (frac_of m.frac)) ≡ true

pub parse_amount :
    (negative : Bool) (scale : Scale) (m : Amount)
    → IsAmount scale m
    → parse_scaled_decimal (amount_text negative m) scale
      ≡ ok (signed negative (amount_value scale m))
parse_amount negative scale m v =
    parse_scaled_decimal_lem negative scale m.whole m.frac v.whole_digits v.rest_digits v.some_digit
      v.fits
    ∙ rw v.exact refl

-- A quote as it is written; `kind` is the byte of its type.
pub record Quote : Type 0 where
  pub action : MdUpdateAction
  pub kind : ℕ
  pub symbol : List ℕ
  pub negative : Bool
  pub price : Amount
  pub size : Amount

abbrev pub action_byte : MdUpdateAction → ℕ
action_byte new = b'0'
action_byte change = b'1'
action_byte delete = b'2'
action_byte delete_thru = b'3'
action_byte delete_from = b'4'
action_byte overlay = b'5'

pub action_of-action_byte : (a : MdUpdateAction) → action_of (action_byte a) ≡ ok a
unfolding action_of
action_of-action_byte new = refl
action_of-action_byte change = refl
action_of-action_byte delete = refl
action_of-action_byte delete_thru = refl
action_of-action_byte delete_from = refl
action_of-action_byte overlay = refl

abbrev pub field : ℕ → List ℕ → Field
field tag value = record { tag = tag; value = value }

-- The tags that the decoder reads.
abbrev pub is_read : ℕ → Bool
is_read tag =
    is_group_tag tag
    || tag == 35
    || tag == 34
    || tag == 52
    || tag == 43
    || tag == 262
    || tag == 268
    || tag == 55

abbrev pub read_only : List Field → List Field
read_only [] = []
read_only (f ∷ fs) = let rest = read_only fs in if is_read f.tag then f ∷ rest else rest

abbrev pub quote_fields : Quote → List Field → List Field
quote_fields q more =
    field 279 (action_byte q.action ∷ [])
    ∷ field 269 (q.kind ∷ [])
    ∷ field 55 q.symbol
    ∷ field 270 (amount_text q.negative q.price)
    ∷ field 271 (amount_text false q.size)
    ∷ more

abbrev pub all_fields : List Quote → List Field
all_fields [] = []
all_fields (q ∷ qs) = quote_fields q (all_fields qs)

abbrev pub update_fields : ℕ → List Quote → List Field
update_fields seq qs =
    field 35 (b'X' ∷ []) ∷ field 34 (numeral seq) ∷ field 268 (numeral (length qs)) ∷ all_fields qs

-- The number of quotes of its own side before a quote, given the bids and the offers before it.
abbrev pub side_level : MdEntryType → ℕ → ℕ → ℕ
side_level bid bids offers = bids
side_level offer bids offers = offers
side_level _ bids offers = 0

abbrev pub bid_count : MdEntryType → ℕ
bid_count bid = 1
bid_count _ = 0

abbrev pub offer_count : MdEntryType → ℕ
offer_count offer = 1
offer_count _ = 0

pub count_bid_lem : (t : MdEntryType) (n : ℕ) → n < 255 → count_bid t n ≡ n + bid_count t
count_bid_lem t n h = ground arith

pub count_ask_lem : (t : MdEntryType) (n : ℕ) → n < 255 → count_ask t n ≡ n + offer_count t
count_ask_lem t n h = ground arith

pub implied_level_lem : (t : MdEntryType) (b a : ℕ) → implied_level t b a ≡ side_level t b a
implied_level_lem t b a = ground arith

pub one_side : (t : MdEntryType) → bid_count t + offer_count t ≤ 1
one_side t = ground arith

pub lt→leb : (a b : ℕ) → b < a → leb a b ≡ false
lt→leb a b h = ground arith

module _ (scales : FixScales) where
  pub record IsQuote (q : Quote) : Type 0 where
    pub typed : is_unset (entry_type_of q.kind) ≡ false
    pub price_fits : IsAmount scales.price q.price
    pub size_fits : IsAmount scales.quantity q.size

  -- The entry of a quote, at a level.
  abbrev pub entry_at : ℕ → Quote → MdEntry
  entry_at level q = record empty_entry {
    entry_type = entry_type_of q.kind;
    action = q.action;
    symbol = new_text q.symbol;
    price = signed q.negative (amount_value scales.price q.price);
    size = amount_value scales.quantity q.size;
    has_price = true;
    has_size = true;
    level = level;
  }

  -- The entries of quotes, behind so many bids and offers.
  abbrev pub entries_from : ℕ → ℕ → List Quote → List MdEntry
  entries_from bids offers [] = []
  entries_from bids offers (q ∷ qs) =
      let kind = entry_type_of q.kind in
      entry_at (side_level kind bids offers) q
      ∷ entries_from (bids + bid_count kind) (offers + offer_count kind) qs

abbrev pub message_with : ℕ → ℕ → List MdEntry → MdMessage
message_with seq count es = record empty_message {
  msg_type = market_data_incremental;
  msg_seq_num = seq;
  declared_entries = count;
  entries = es;
}
