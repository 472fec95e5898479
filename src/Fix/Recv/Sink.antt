-- ===== src/Fix/Recv/Sink.antt =====
-- The sink that records are published to (crates/jeed-wire/src/sink.rs), what is published
-- (crates/jeed-wire/src/record.rs, header.rs), the venue's adapter, and the guard between them.
pub mod Staleness
use jeed.Base.{ℕ, ◌-◌, List, Bool, true, false, ◌||◌}
use jeed.Base.{Result, ok, err, ◌>>=◌, if◌then◌else◌, leb, ◌==◌}
use jeed.Wire.Header.{RecordHeader, lacks_venue_time, with_stale}
use jeed.Fix.MarketData.Entry.{FixScales, MdMessage}
use jeed.Fix.Session.{add_u64}

-- The union: a heartbeat, or the bytes of another kind's payload.
pub data WirePayload : Type 0 where
  heartbeat : (received forwarded : ℕ) → WirePayload
  other : List ℕ → WirePayload

pub record WireRecord : Type 0 where
  pub header : RecordHeader
  pub payload : WirePayload

-- `RecordSink`. What a `fill` writes to the variables that it captures is part of its result.
pub record Sink (S : Type 0) : Type 1 where
  pub publish : {A E : Type 0} → (WireRecord → Result E (WireRecord × A)) → S → Result E A × S
  pub note_drops : ℕ → S → S

-- `MdAdapter`, the venue's layer; `adapt` takes any sink.
pub record MdAdapter (A E : Type 0) : Type 1 where
  pub venue : A → ℕ
  pub scales : A → FixScales
  pub adapt : {S : Type 0} → Sink S → MdMessage → ℕ → A × S → Result E ℕ × (A × S)

-- `WireKind::Heartbeat`
abbrev pub heartbeat_kind : ℕ
heartbeat_kind = 9

unfoldable pub mark_stale : ℕ → ℕ → WireRecord → WireRecord × Bool
mark_stale recv_ns stale_ns rec =
    if stale_ns == 0 || lacks_venue_time rec.header.flags
    then (rec, false)
    else (if leb (recv_ns - rec.header.venue_ns) stale_ns then (rec, false) else (
      record rec { header = record rec.header { flags = with_stale rec.header.flags } },
      true,
    ))

-- The closure that the guard hands to the inner sink: also whether the record was marked.
abbrev pub guarded :
    {A E : Type 0}
    → ℕ
    → ℕ
    → (WireRecord → Result E (WireRecord × A))
    → WireRecord
    → Result E (WireRecord × (A × Bool))
guarded recv_ns stale_ns fill rec = do
  filled ← fill rec
  let marked = mark_stale recv_ns stale_ns filled.0
  ok (marked.0, (filled.1, marked.1))

abbrev pub count_hit : {S A E : Type 0} → ℕ → Result E (A × Bool) × S → Result E A × (S × ℕ)
count_hit stale (ok (a, true), s) = (ok a, (s, add_u64 stale 1))
count_hit stale (ok (a, false), s) = (ok a, (s, stale))
count_hit stale (err e, s) = (err e, (s, stale))

-- `StaleGuard`: a sink over the sink and the count of records marked.
abbrev pub stale_guard : {S : Type 0} → Sink S → ℕ → ℕ → Sink (S × ℕ)
stale_guard sink recv_ns stale_ns = record {
  publish = λ fill st. count_hit st.1 (sink.publish (guarded recv_ns stale_ns fill) st.0);
  note_drops = λ n st. (sink.note_drops n st.0, st.1);
}
