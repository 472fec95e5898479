-- ===== src/Crypto/Recv/Stats.antt =====
-- crates/jeed-crypto/src/recv/stats.rs, and the pipeline's `note_` functions: counters of a u64.
use jeed.Base.{ℕ}
use jeed.Fix.Session.{add_u64}

pub record Stats : Type 0 where
  pub bytes : ℕ
  pub frames : ℕ
  pub messages : ℕ
  pub published : ℕ
  pub stale : ℕ
  pub heartbeats : ℕ
  pub decode_failed : ℕ
  pub rest : ℕ
  pub binary : ℕ
  pub fragments : ℕ
  pub pings : ℕ
  pub pongs : ℕ
  pub closes : ℕ
  pub pings_sent : ℕ
  pub pongs_sent : ℕ
  pub keepalives_sent : ℕ
  pub protocol_errors : ℕ
  pub disconnects : ℕ
  pub connect_failures : ℕ
  pub opens : ℕ

abbrev pub no_stats : Stats
no_stats = record {
  bytes = 0;
  frames = 0;
  messages = 0;
  published = 0;
  stale = 0;
  heartbeats = 0;
  decode_failed = 0;
  rest = 0;
  binary = 0;
  fragments = 0;
  pings = 0;
  pongs = 0;
  closes = 0;
  pings_sent = 0;
  pongs_sent = 0;
  keepalives_sent = 0;
  protocol_errors = 0;
  disconnects = 0;
  connect_failures = 0;
  opens = 0;
}

abbrev pub dropped : Stats → ℕ
dropped s = s.decode_failed

abbrev pub note_frame : Stats → Stats
note_frame s = record s { frames = add_u64 s.frames 1 }

abbrev pub note_fragment : Stats → Stats
note_fragment s = record s { fragments = add_u64 s.fragments 1 }

abbrev pub note_binary : Stats → Stats
note_binary s = record s { binary = add_u64 s.binary 1 }

abbrev pub note_ping : Stats → Stats
note_ping s = record s { pings = add_u64 s.pings 1 }

abbrev pub note_pong : Stats → Stats
note_pong s = record s { pongs = add_u64 s.pongs 1 }

abbrev pub note_close : Stats → Stats
note_close s = record s { closes = add_u64 s.closes 1 }

abbrev pub note_ping_sent : Stats → Stats
note_ping_sent s = record s { pings_sent = add_u64 s.pings_sent 1 }

abbrev pub note_pong_sent : Stats → Stats
note_pong_sent s = record s { pongs_sent = add_u64 s.pongs_sent 1 }

abbrev pub note_keepalive : Stats → Stats
note_keepalive s = record s { keepalives_sent = add_u64 s.keepalives_sent 1 }

abbrev pub note_protocol_error : Stats → Stats
note_protocol_error s = record s { protocol_errors = add_u64 s.protocol_errors 1 }

abbrev pub note_disconnect : Stats → Stats
note_disconnect s = record s { disconnects = add_u64 s.disconnects 1 }

abbrev pub note_connect_failure : Stats → Stats
note_connect_failure s = record s { connect_failures = add_u64 s.connect_failures 1 }

abbrev pub note_open : Stats → Stats
note_open s = record s { opens = add_u64 s.opens 1 }

abbrev pub note_bytes : ℕ → Stats → Stats
note_bytes n s = record s { bytes = add_u64 s.bytes n }
