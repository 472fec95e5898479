-- ===== src/Fix/Recv/Stats.antt =====
-- crates/jeed-fix/src/recv/stats.rs: what became of every message since boot. The counters are u64.
use jeed.Base.{ℕ}
use jeed.Fix.Session.{add_u64, SeqVerdict, in_order, gap, duplicate, regression}

pub record Stats : Type 0 where
  pub bytes : ℕ
  pub received : ℕ
  pub published : ℕ
  pub stale : ℕ
  pub heartbeats : ℕ
  pub market_data : ℕ
  pub admin : ℕ
  pub filtered_symbol : ℕ
  pub unhandled : ℕ
  pub decode_failed : ℕ
  pub refused : ℕ
  pub framing_errors : ℕ
  pub gaps : ℕ
  pub lost : ℕ
  pub duplicates : ℕ
  pub regressions : ℕ
  pub logons : ℕ
  pub disconnects : ℕ
  pub connect_failures : ℕ
  pub heartbeats_sent : ℕ
  pub test_requests_sent : ℕ
  pub resend_requests_sent : ℕ

abbrev pub no_stats : Stats
no_stats = record {
  bytes = 0;
  received = 0;
  published = 0;
  stale = 0;
  heartbeats = 0;
  market_data = 0;
  admin = 0;
  filtered_symbol = 0;
  unhandled = 0;
  decode_failed = 0;
  refused = 0;
  framing_errors = 0;
  gaps = 0;
  lost = 0;
  duplicates = 0;
  regressions = 0;
  logons = 0;
  disconnects = 0;
  connect_failures = 0;
  heartbeats_sent = 0;
  test_requests_sent = 0;
  resend_requests_sent = 0;
}

abbrev pub dropped : Stats → ℕ
dropped s = add_u64 s.decode_failed s.refused

abbrev pub skipped : Stats → ℕ
skipped s = add_u64 s.filtered_symbol s.unhandled

unfoldable pub note_verdict : SeqVerdict → Stats → Stats
note_verdict in_order s = s
note_verdict (gap expected received missing) s = record s {
  gaps = add_u64 s.gaps 1;
  lost = add_u64 s.lost missing;
}
note_verdict (duplicate expected received) s = record s { duplicates = add_u64 s.duplicates 1 }
note_verdict (regression expected received) s = record s { regressions = add_u64 s.regressions 1 }
