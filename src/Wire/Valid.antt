-- ===== src/Wire/Valid.antt =====
-- Which headers are valid, and what is said of the others.
use jeed.Base.{ℕ, ◌≡◌, arith, ok, err, leb, ◌&&◌, if◌then◌else◌, ok_or}
use jeed.Wire.Error.{WireError}
use jeed.Wire.Types.{kind_of, venue_of, from_decimals}
use jeed.Wire.Header.{RecordHeader, validate, checked, scale_from_u8, wire_max_depth}

kind_of_lem :
    (b : ℕ) → checked (kind_of b) ≡ (if leb 1 b && leb b 10 then ok tt else err (WireError.kind b))
unfolding kind_of
kind_of_lem b = ground arith

venue_of_lem :
    (b : ℕ)
    → checked (ok_or (venue_of b) (WireError.venue b))
      ≡ (if leb b 14 then ok tt else err (WireError.venue b))
unfolding venue_of
venue_of_lem b = ground arith

scale_from_u8_lem :
    (b : ℕ) → checked (scale_from_u8 b) ≡ (if leb b 8 then ok tt else err (WireError.scale b))
unfolding from_decimals
scale_from_u8_lem b = ground arith

-- A header is valid exactly if its kind is 1 to 10, its venue at most 14, both scales at most 8 and its
-- depth at most 10; otherwise the error names the first of these bytes, in this order, that is not.
pub validate_lem :
    (h : RecordHeader)
    → validate h ≡ (
        if leb 1 h.kind && leb h.kind 10
        then (if leb h.venue 14
            then (if leb h.price_scale 8
                then (if leb h.qty_scale 8
                    then (if leb h.depth 10
                        then ok tt
                        else err (WireError.depth h.depth wire_max_depth))
                    else err (WireError.scale h.qty_scale))
                else err (WireError.scale h.price_scale))
            else err (WireError.venue h.venue))
        else err (WireError.kind h.kind))
unfolding validate
validate_lem h =
    rw
      (
        kind_of_lem h.kind,
        venue_of_lem h.venue,
        scale_from_u8_lem h.price_scale,
        scale_from_u8_lem h.qty_scale,
      )
      (ground arith)
