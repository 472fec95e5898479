-- ===== src/Wire/Header.antt =====
-- crates/jeed-wire/src/header.rs: the header of a record. The padding is left out.
use jeed.Base.{ℕ, ◌+◌, ◌-◌, ◌/◌, ◌%◌, List, Option, none, some, Bool, ◌==◌, ltb}
use jeed.Base.{Result, ok, err, ◌>>=◌, ok_or, if◌then◌else◌}
use jeed.Wire.Error.{WireError}
use jeed.Wire.Types.{kind_of, Venue, venue_of, Scale, decimals, from_decimals}

pub record RecordHeader : Type 0 where
  pub kind : ℕ
  pub venue : ℕ
  pub flags : ℕ
  pub depth : ℕ
  pub price_scale : ℕ
  pub qty_scale : ℕ
  pub producer_seq : ℕ
  pub recv_ns : ℕ
  pub venue_ns : ℕ
  pub symbol : List ℕ

-- `RecordHeader::new`
abbrev pub new_header : ℕ → ℕ → List ℕ → ℕ → RecordHeader
new_header kind venue symbol recv_ns = record {
  kind = kind;
  venue = venue;
  flags = 0;
  depth = 0;
  price_scale = 0;
  qty_scale = 0;
  producer_seq = 0;
  recv_ns = recv_ns;
  venue_ns = 0;
  symbol = symbol;
}

-- `WIRE_MAX_DEPTH`
abbrev pub wire_max_depth : ℕ
wire_max_depth = 10

-- `RecordHeader::venue`
abbrev venue_result : ℕ → Result WireError Venue
venue_result b = ok_or (venue_of b) (WireError.venue b)

abbrev pub scale_from_u8 : ℕ → Result WireError Scale
scale_from_u8 b = ok_or (from_decimals b) (WireError.scale b)

-- `if let Err(e) = r { return Err(e) }`
abbrev pub checked : {A : Type 0} → Result WireError A → Result {0, 0} WireError Unit
checked (ok a) = ok tt
checked (err e) = err e

unfoldable pub validate : RecordHeader → Result {0, 0} WireError Unit
validate h = do
  k ← checked (kind_of h.kind)
  v ← checked (venue_result h.venue)
  p ← checked (scale_from_u8 h.price_scale)
  q ← checked (scale_from_u8 h.qty_scale)
  if ltb wire_max_depth h.depth then err (WireError.depth h.depth wire_max_depth) else ok tt

abbrev pub set_scales : Scale → Scale → RecordHeader → RecordHeader
set_scales price qty h = record h { price_scale = decimals price; qty_scale = decimals qty }

-- `flags & VENUE_TIME_VALID == 0`
abbrev pub lacks_venue_time : ℕ → Bool
lacks_venue_time flags = flags % 2 == 0

-- `flags | STALE`
abbrev pub with_stale : ℕ → ℕ
with_stale flags = if flags / 2 % 2 == 0 then flags + 2 else flags

-- `flags | VENUE_TIME_VALID`
abbrev pub set_venue_time : ℕ → RecordHeader → RecordHeader
set_venue_time venue_ns h = record h {
  venue_ns = venue_ns;
  flags = if lacks_venue_time h.flags then h.flags + 1 else h.flags;
}

unfoldable pub venue_time : RecordHeader → Option ℕ
venue_time h = if lacks_venue_time h.flags then none else some h.venue_ns

unfoldable pub venue_age_ns : RecordHeader → Option ℕ
venue_age_ns h = elim (venue_time h) [ none ↦ none | some v ↦ some (h.recv_ns - v) ]
