-- ===== src/Crypto/Recv/Pipeline.antt =====
-- crates/jeed-crypto/src/recv/pipeline.rs: route, decode and publish one message. Its `StaleGuard` is
-- text for text the one of crates/jeed-fix/src/recv/pipeline.rs.
use jeed.Base.{ℕ, List, Option, none, some, min, length, take, replicate}
use jeed.Base.{Result, ok, err}
use jeed.Fix.Session.{add_u64}
use jeed.Fix.Recv.Sink.{Sink, WireRecord, WirePayload, heartbeat_kind, stale_guard}
use jeed.Wire.Header.{new_header}
use jeed.Wire.Types.{symbol_len}
use jeed.Crypto.Recv.Stats.{Stats, no_stats}

-- `Router`, the venue's layer over a state of its own; `E` is the error type of the decoders. It
-- publishes to any sink.
pub record Router (R E : Type 0) : Type 1 where
  pub venue : R → ℕ
  pub route : {S : Type 0} → Sink S → List ℕ → ℕ → R × S → Result E ℕ × (R × S)
  pub route_rest : {S : Type 0} → Sink S → ℕ → List ℕ → ℕ → R × S → Result E ℕ × (R × S)
  pub keepalive : ℕ → R → Option (List ℕ) × R

pub data Outcome (E : Type 0) : Type 0 where
  published : (records : ℕ) → Outcome E
  failed : E → Outcome E

abbrev pub failure_head : ℕ
failure_head = 240

-- `bytes` is the part of the array that is filled.
pub record Failure (E : Type 0) : Type 0 where
  pub error : E
  pub bytes : List ℕ
  pub len : ℕ
  pub total : ℕ

unfoldable pub new_failure : {E : Type 0} → E → List ℕ → Failure E
new_failure error msg =
    let len = min (length msg) failure_head in
    record { error = error; bytes = take len msg; len = len; total = length msg }

pub record Pipeline (R S E : Type 0) : Type 0 where
  pub stale_ns : ℕ
  pub stats : Stats
  pub router : R
  pub sink : S
  pub last_failure : Option (Failure E)

abbrev pub new_pipeline : {R S E : Type 0} → ℕ → R → S → Pipeline R S E
new_pipeline stale_ns router sink = record {
  stale_ns = stale_ns;
  stats = no_stats;
  router = router;
  sink = sink;
  last_failure = none;
}

-- One of the `note_` functions on the pipeline.
abbrev pub noted : {R S E : Type 0} → (Stats → Stats) → Pipeline R S E → Pipeline R S E
noted note p = record p { stats = note p.stats }

module _ {R S E : Type 0} (router : Router R E) (sink : Sink S) where
  -- The sink's guard, and the count of stale records added up.
  unfoldable pub guarded :
      ℕ
      → (Sink (S × ℕ) → R × (S × ℕ) → Result E ℕ × (R × (S × ℕ)))
      → Pipeline R S E
      → Result E ℕ × Pipeline R S E
  guarded recv_ns route p =
      let (routed, (r, (s, stale))) =
        route (stale_guard sink recv_ns p.stale_ns) (p.router, (p.sink, 0)) in
      (
        routed,
        record p {
          router = r;
          sink = s;
          stats = record p.stats { stale = add_u64 p.stats.stale stale };
        },
      )

  unfoldable pub book : List ℕ → Result E ℕ × Pipeline R S E → Outcome E × Pipeline R S E
  book msg (ok records, p) = (
    published records,
    record p { stats = record p.stats { published = add_u64 p.stats.published records } },
  )
  book msg (err e, p) = (
    failed e,
    record p {
      stats = record p.stats { decode_failed = add_u64 p.stats.decode_failed 1 };
      sink = sink.note_drops 1 p.sink;
      last_failure = some (new_failure e msg);
    },
  )

  -- `Pipeline::ingest`
  unfoldable pub ingest : List ℕ → ℕ → Pipeline R S E → Outcome E × Pipeline R S E
  ingest msg recv_ns p =
      let p' = noted (λ s. record s { messages = add_u64 s.messages 1 }) p in
      book msg (guarded recv_ns (λ guard. router.route guard msg recv_ns) p')

  -- `Pipeline::ingest_rest`
  unfoldable pub ingest_rest : ℕ → List ℕ → ℕ → Pipeline R S E → Outcome E × Pipeline R S E
  ingest_rest instrument body recv_ns p =
      let p' = noted (λ s. record s { rest = add_u64 s.rest 1 }) p in
      book body (guarded recv_ns (λ guard. router.route_rest guard instrument body recv_ns) p')

  abbrev heartbeat_record : ℕ → Pipeline R S E → WireRecord → Result {0, 0} Unit (WireRecord × Unit)
  heartbeat_record now p rec = ok (
    record {
      header = new_header heartbeat_kind (router.venue p.router) (replicate symbol_len 0) now;
      payload = WirePayload.heartbeat p.stats.messages p.stats.published;
    },
    tt,
  )

  -- `Pipeline::heartbeat`
  unfoldable pub beat : ℕ → Pipeline R S E → Pipeline R S E
  beat now p = record p {
    sink = (sink.publish (heartbeat_record now p) p.sink).1;
    stats = record p.stats { heartbeats = add_u64 p.stats.heartbeats 1 };
  }

unfoldable pub take_failure :
    {R S E : Type 0} → Pipeline R S E → Option (Failure E) × Pipeline R S E
take_failure p = (p.last_failure, record p { last_failure = none })
