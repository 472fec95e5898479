-- ===== src/Tests/Recv.antt =====
-- Frames through the receive pipeline, into a sink that keeps every record.
use jeed.Base.{ℕ, suc, List, [], ◌∷◌, some, true, not, Result, ok, err, arith, refl, replicate}
use jeed.Base.{◌≡◌, length}
use jeed.Fix.MsgType.{from_value, market_data_incremental, sequence_reset}
use jeed.Fix.TagValue.{Field, fields, collect, next, advance, split_field, parse_u64, split_value}
use jeed.Fix.TagValue.Numeral.{numeral}
use jeed.Fix.TagValue.Scan.{encode_fields}
use jeed.Fix.Frame.{Frame}
use jeed.Base.Ints.{pos}
use jeed.Fix.Decimal.{frac_digits, int_digits, pad_places, parse_scaled_decimal}
use jeed.Wire.Types.{s2, s0}
use jeed.Fix.Decimal.{scale_digits, scale_parts, split_point}
use jeed.Fix.Session.{SessionState, AdminMessage, duplicate}
use jeed.Fix.Session
use jeed.Fix.Admin
use jeed.Fix.Admin.{parse_admin_message, empty_admin}
use jeed.Fix.MarketData.Entry.{
  FixScales, MdMessage, empty_message, empty_entry, bid, action_of, entry_type_of,
}
use jeed.Fix.MarketData.Parse
use jeed.Fix.MarketData.Parse.{parse_md_message, plain_field, group_field, close_entry, fill_entry}
use jeed.Fix.MarketData.Parse.{set_field, push_entry}
use jeed.Base.{◌||◌, ◌&&◌, ◌==◌, leb, map}
use jeed.Base.{false, ◌+◌, ◌/◌, ◌%◌, ◌↔◌, ◌≢◌, ◌<◌}
use jeed.Wire.Header.{lacks_venue_time}
use jeed.Fix.Recv.Sink.{mark_stale}
use jeed.Fix.Recv.Sink.Staleness.{mark_stale_iff}
use jeed.Fix.Recv.SymbolFilter.{allows, new_filter, key_of}
use jeed.Fix.Recv.SymbolFilter.Search.{holds}
use jeed.Fix.Recv.SymbolFilter.Keys.{allows-new_filter}
use jeed.Fix.Recv.Sink.{Sink, MdAdapter, WireRecord, WirePayload}
use jeed.Wire.Header.{new_header}
use jeed.Wire.Types.{symbol_len}
use jeed.Fix.Recv.Pipeline.{Pipeline, new_pipeline, ingest, market_data, admin_frame}
use jeed.Fix.Recv.Pipeline.Accounts.{Booked, ingest-Booked}
use jeed.Fix.Recv.Pipeline.Verdicts.{market_data-seen, admin_frame-seen}

abbrev blank : WireRecord
blank = record {
  header = new_header 0 0 (replicate symbol_len 0) 0;
  payload = WirePayload.other [];
}

abbrev keep :
    {A E : Type 0} → List WireRecord → Result E (WireRecord × A) → Result E A × List WireRecord
keep kept (ok (rec, a)) = (ok a, rec ∷ kept)
keep kept (err e) = (err e, kept)

abbrev list_sink : Sink (List WireRecord)
list_sink = record { publish = λ fill kept. keep kept (fill blank); note_drops = λ n kept. kept }

abbrev two_and_none : FixScales
two_and_none = record { price = s2; quantity = s0 }

-- One trade record for a message, and a count of them.
abbrev counted : {S : Type 0} → ℕ → Result {0, 0} ℕ Unit × S → Result ℕ ℕ × (ℕ × S)
counted n (ok u, s) = (ok 1, (suc n, s))
counted n (err e, s) = (err e, (n, s))

abbrev counting : MdAdapter ℕ ℕ
counting = record {
  venue = λ n. 7;
  scales = λ n. two_and_none;
  adapt = λ sink msg ns st. counted st.0 (
      sink.publish
        (λ rec. ok (record rec { header = new_header 2 7 (replicate symbol_len 0) ns }, tt)) st.1);
}

abbrev frame_with : List Field → Frame
frame_with fs = record { bytes = []; begin = b'F' ∷ []; body = encode_fields fs }

-- `35=X 34=2 43=Y 268=1 279=0 269=0 270=1.25 271=10`
abbrev update_frame : Frame
update_frame = frame_with (
    record { tag = 35; value = b'X' ∷ [] }
    ∷ record { tag = 34; value = b'2' ∷ [] }
    ∷ record { tag = 43; value = b'Y' ∷ [] }
    ∷ record { tag = 268; value = b'1' ∷ [] }
    ∷ record { tag = 279; value = b'0' ∷ [] }
    ∷ record { tag = 269; value = b'0' ∷ [] }
    ∷ record { tag = 270; value = b'1' ∷ b'.' ∷ b'2' ∷ b'5' ∷ [] }
    ∷ record { tag = 271; value = b'1' ∷ b'0' ∷ [] }
    ∷ [])

abbrev update : MdMessage
update = record empty_message {
  msg_type = market_data_incremental;
  msg_seq_num = 2;
  poss_dup = true;
  declared_entries = 1;
  entries =
      record empty_entry {
        entry_type = bid;
        price = pos 125;
        size = 10;
        has_price = true;
        has_size = true;
      }
      ∷ [];
}

update_read : parse_md_message update_frame two_and_none ≡ ok update
unfolding parse_md_message Parse.read_fields fields collect next numeral advance split_field
    parse_u64 split_value Parse.read_field plain_field from_value group_field close_entry fill_entry
    set_field action_of frac_digits int_digits pad_places parse_scaled_decimal scale_digits
    scale_parts split_point entry_type_of Parse.finish push_entry
update_read = refl

abbrev at_start : Pipeline ℕ (List WireRecord)
at_start = new_pipeline [] 1_000 0 []

ingest-Booked_example : Booked (ingest counting list_sink update_frame 50 at_start).1
ingest-Booked_example =
    ingest-Booked counting list_sink update_frame 50 at_start (refl, (refl, refl, refl, refl))

-- The same, once the session expects 5.
abbrev later : Pipeline ℕ (List WireRecord)
later = record at_start { session = record Session.new { next_expected = 5 } }

market_data-seen_example :
    let (out, q) = market_data counting list_sink update_frame 50 later in
    (q.sink ≡ [])
    × (q.adapter ≡ 0)
    × (q.session.next_expected ≡ 5)
    × (out.disconnect ≡ not update.poss_dup)
market_data-seen_example =
    market_data-seen counting list_sink update_frame 50 later update update_read (omega arith)

-- `35=4 34=2 43=Y 123=Y 36=9`
abbrev gap_fill_frame : Frame
gap_fill_frame = frame_with (
    record { tag = 35; value = b'4' ∷ [] }
    ∷ record { tag = 34; value = b'2' ∷ [] }
    ∷ record { tag = 43; value = b'Y' ∷ [] }
    ∷ record { tag = 123; value = b'Y' ∷ [] }
    ∷ record { tag = 36; value = b'9' ∷ [] }
    ∷ [])

abbrev gap_fill : AdminMessage
gap_fill = record empty_admin {
  msg_type = sequence_reset;
  msg_seq_num = 2;
  poss_dup = true;
  gap_fill = true;
  new_seq_no = some 9;
}

gap_fill_read : parse_admin_message gap_fill_frame ≡ ok gap_fill
unfolding parse_admin_message Admin.read_fields fields collect next numeral advance split_field
    parse_u64 split_value Admin.read_field from_value Admin.finish
gap_fill_read = refl

admin_frame-seen_example :
    let (out, q) = admin_frame counting list_sink gap_fill_frame 50 later in
    (out.verdict ≡ some (duplicate 5 2)) × (q.session.next_expected ≡ 9)
admin_frame-seen_example =
    admin_frame-seen counting list_sink gap_fill_frame 50 later gap_fill 9 gap_fill_read refl refl
      refl refl (omega arith)

abbrev pairs : List (List ℕ)
pairs = (b'U' ∷ b'S' ∷ []) ∷ (b'E' ∷ b'U' ∷ []) ∷ (b'U' ∷ b'S' ∷ []) ∷ []

allows-new_filter_example :
    allows (new_filter pairs) (b'E' ∷ b'U' ∷ [])
    ≡ (length pairs == 0 || (leb 2 32 && holds (map key_of pairs) (key_of (b'E' ∷ b'U' ∷ []))))
allows-new_filter_example = allows-new_filter pairs (b'E' ∷ b'U' ∷ [])

-- A record of an instant 4990 before it was received.
abbrev old_record : WireRecord
old_record = record blank { header = record blank.header { flags = 1; venue_ns = 10 } }

abbrev limit : ℕ
limit = 1_000

mark_stale_iff_example :
    let (out, marked) = mark_stale 5_000 limit old_record in
    ((marked ≡ true) ↔ ((limit ≢ 0) × (lacks_venue_time 1 ≡ false) × (10 + limit < 5_000)))
    × (marked ≡ true → out.header.flags / 2 % 2 ≡ 1)
    × (marked ≡ false → out.header.flags ≡ 1)
    × (out.header.flags % 2 ≡ 1)
    × (out.header.flags / 4 ≡ 0)
    × (record out.header { flags = 1 } ≡ old_record.header)
    × (out.payload ≡ old_record.payload)
mark_stale_iff_example = mark_stale_iff 5_000 limit old_record
