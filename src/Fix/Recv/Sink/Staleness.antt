-- ===== src/Fix/Recv/Sink/Staleness.antt =====
-- When a record is marked stale.
use jeed.Base.{ℕ, ◌+◌, ◌/◌, ◌%◌, ◌<◌, ◌≡◌, ◌≢◌, ◌↔◌, arith, true, false}
use jeed.Wire.Header.{lacks_venue_time, with_stale}
use jeed.Fix.Recv.Sink.{WireRecord, mark_stale}

-- Bit 1 is set, and the bits below and above it are kept.
with_stale_lem :
    (flags : ℕ)
    → (with_stale flags / 2 % 2 ≡ 1)
      × (with_stale flags % 2 ≡ flags % 2)
      × (with_stale flags / 4 ≡ flags / 4)
with_stale_lem flags = ground arith

-- A record is marked exactly if a limit is set, its venue time is valid, and it was received more than
-- the limit after that time. The mark sets bit 1 of the flags and keeps their other bits, so that the
-- venue time stays valid; nothing else of the record changes, and nothing at all of one not marked.
pub mark_stale_iff :
    (recv_ns stale_ns : ℕ) (rec : WireRecord)
    → let (out, marked) = mark_stale recv_ns stale_ns rec in
      ((marked ≡ true) ↔ (
        (stale_ns ≢ 0)
        × (lacks_venue_time rec.header.flags ≡ false)
        × (rec.header.venue_ns + stale_ns < recv_ns)))
      × (marked ≡ true → out.header.flags / 2 % 2 ≡ 1)
      × (marked ≡ false → out.header.flags ≡ rec.header.flags)
      × (out.header.flags % 2 ≡ rec.header.flags % 2)
      × (out.header.flags / 4 ≡ rec.header.flags / 4)
      × (record out.header { flags = rec.header.flags } ≡ rec.header)
      × (out.payload ≡ rec.payload)
unfolding mark_stale
mark_stale_iff recv_ns stale_ns rec = ground (arith, with_stale_lem rec.header.flags)
