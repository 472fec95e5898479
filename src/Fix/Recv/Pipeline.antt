-- ===== src/Fix/Recv/Pipeline.antt =====
-- crates/jeed-fix/src/recv/pipeline.rs: route, decode, adapt and publish, one message at a time.
pub mod Accounts
pub mod Verdicts
use jeed.Base.{ℕ, ◌+◌, ◌-◌, List, [], ◌∷◌, Option, none, some, Bool, true, false, not, ◌&&◌}
use jeed.Base.{Result, ok, err, if◌then◌else◌, replicate}
use jeed.Fix.Error.{FixError}
use jeed.Fix.Frame.{Frame}
use jeed.Fix.MsgType.{MsgType, sequence_reset, logon, logout, test_request, resend_request}
use jeed.Fix.MsgType.{is_market_data, is_admin}
use jeed.Fix.Session.{SessionState, SeqVerdict, in_order, gap, AdminMessage}
use jeed.Fix.Session
use jeed.Fix.Session.{observe, apply_admin, add_u64}
use jeed.Fix.Admin.{msg_type, parse_admin_message}
use jeed.Fix.Value.{FixText}
use jeed.Fix.MarketData.Entry.{MdMessage}
use jeed.Fix.MarketData.Parse.{parse_md_message}
use jeed.Fix.Recv.Stats.{Stats, no_stats, note_verdict}
use jeed.Fix.Recv.SymbolFilter.{allows_message}
use jeed.Fix.Recv.Sink.{Sink, MdAdapter, WireRecord, WirePayload, heartbeat_kind, stale_guard}
use jeed.Wire.Header.{new_header}
use jeed.Wire.Types.{symbol_len}

-- The two texts that a logout gives.
pub data LogoutText : Type 0 where
  went_backwards acknowledged : LogoutText

pub data Reply : Type 0 where
  heartbeat : FixText → Reply
  resend : (begin last : ℕ) → Reply
  reset : (new_seq : ℕ) → Reply
  hang_up : LogoutText → Reply

pub data Outcome (E : Type 0) : Type 0 where
  published : (records : ℕ) → Outcome E
  admin : MsgType → Outcome E
  filtered_symbol duplicate regression : Outcome E
  unhandled : MsgType → Outcome E
  failed : FixError → Outcome E
  refused : E → Outcome E

pub record Ingested (E : Type 0) : Type 0 where
  pub outcome : Outcome E
  pub verdict : Option SeqVerdict
  pub reply : Option Reply
  pub disconnect : Bool

abbrev pub plain : {E : Type 0} → Outcome E → Ingested E
plain o = record { outcome = o; verdict = none; reply = none; disconnect = false }

pub record Pipeline (A S : Type 0) : Type 0 where
  pub symbols : List (List ℕ)
  pub stale_ns : ℕ
  pub session : SessionState
  pub stats : Stats
  pub adapter : A
  pub sink : S

abbrev pub is_reset : MsgType → Bool
is_reset sequence_reset = true
is_reset _ = false

abbrev pub is_unflagged_reset : AdminMessage → Bool
is_unflagged_reset m = is_reset m.msg_type && not m.gap_fill

abbrev pub is_logon : MsgType → Bool
is_logon logon = true
is_logon _ = false

-- The second `match` of `answer`.
abbrev pub answer_type : MsgType → FixText → Option Reply × Bool
answer_type test_request id = (some (heartbeat id), false)
answer_type resend_request id = (some (reset 0), false)
answer_type logout id = (some (hang_up acknowledged), true)
answer_type _ id = (none, false)

unfoldable pub answer : AdminMessage → Option SeqVerdict → Option Reply × Bool
answer m (some (SeqVerdict.regression e r)) = (some (hang_up went_backwards), true)
answer m (some (SeqVerdict.duplicate e r)) = (none, false)
answer m (some (gap e r n)) = (some (resend e (r - 1)), false)
answer m (some in_order) = answer_type m.msg_type m.test_req_id
answer m none = answer_type m.msg_type m.test_req_id

module _ {A S E : Type 0} (adapter : MdAdapter A E) (sink : Sink S) where
  unfoldable pub failed_with : FixError → Pipeline A S → Ingested E × Pipeline A S
  failed_with e p = (
    plain (failed e),
    record p {
      stats = record p.stats { decode_failed = add_u64 p.stats.decode_failed 1 };
      sink = sink.note_drops 1 p.sink;
    },
  )

  -- What becomes of an adapter's answer.
  unfoldable pub settle :
      SeqVerdict
      → Option Reply
      → Pipeline A S
      → Result E ℕ × (A × (S × ℕ))
      → Ingested E × Pipeline A S
  settle v reply p (ok n, (a, (s, stale))) = (
    record { outcome = published n; verdict = some v; reply = reply; disconnect = false },
    record p {
      adapter = a;
      sink = s;
      stats = record p.stats {
        stale = add_u64 p.stats.stale stale;
        published = add_u64 p.stats.published n;
      };
    },
  )
  settle v reply p (err e, (a, (s, stale))) = (
    record { outcome = refused e; verdict = some v; reply = reply; disconnect = false },
    record p {
      adapter = a;
      sink = sink.note_drops 1 s;
      stats = record p.stats {
        stale = add_u64 p.stats.stale stale;
        refused = add_u64 p.stats.refused 1;
      };
    },
  )

  -- From the symbol filter on.
  unfoldable pub deliver :
      MdMessage → ℕ → SeqVerdict → Option Reply → Pipeline A S → Ingested E × Pipeline A S
  deliver msg recv_ns v reply p =
      if allows_message p.symbols msg
      then settle v reply p
          (adapter.adapt (stale_guard sink recv_ns p.stale_ns) msg recv_ns (p.adapter, (p.sink, 0)))
      else (
        record { outcome = filtered_symbol; verdict = some v; reply = reply; disconnect = false },
        record p { stats = record p.stats { filtered_symbol = add_u64 p.stats.filtered_symbol 1 } },
      )

  -- The `match verdict` of `market_data`.
  unfoldable pub judged : MdMessage → ℕ → SeqVerdict → Pipeline A S → Ingested E × Pipeline A S
  judged msg recv_ns (SeqVerdict.duplicate e r) p = (
    record {
      outcome = duplicate;
      verdict = some (SeqVerdict.duplicate e r);
      reply = none;
      disconnect = false;
    },
    p,
  )
  judged msg recv_ns (SeqVerdict.regression e r) p = (
    record {
      outcome = regression;
      verdict = some (SeqVerdict.regression e r);
      reply = some (hang_up went_backwards);
      disconnect = true;
    },
    p,
  )
  judged msg recv_ns (gap e r n) p = deliver msg recv_ns (gap e r n) (some (resend e (r - 1))) p
  judged msg recv_ns in_order p = deliver msg recv_ns in_order none p

  -- The sequence number is judged, and the verdict counted.
  unfoldable pub observe_message : ℕ → Bool → ℕ → Pipeline A S → SeqVerdict × Pipeline A S
  observe_message seq poss_dup recv_ns p =
      let (session', v) = observe p.session seq poss_dup recv_ns in
      (v, record p { session = session'; stats = note_verdict v p.stats })

  abbrev pub count_market_data : Pipeline A S → Pipeline A S
  count_market_data p = record p {
    stats = record p.stats { market_data = add_u64 p.stats.market_data 1 };
  }

  abbrev count_admin : Pipeline A S → Pipeline A S
  count_admin p = record p { stats = record p.stats { admin = add_u64 p.stats.admin 1 } }

  abbrev count_logon : Bool → Pipeline A S → Pipeline A S
  count_logon true p = record p { stats = record p.stats { logons = add_u64 p.stats.logons 1 } }
  count_logon false p = p

  unfoldable pub market_message :
      Result FixError MdMessage → ℕ → Pipeline A S → Ingested E × Pipeline A S
  market_message (err e) recv_ns p = failed_with e p
  market_message (ok msg) recv_ns p =
      let (v, p') = observe_message msg.msg_seq_num msg.poss_dup recv_ns (count_market_data p) in
      judged msg recv_ns v p'

  unfoldable pub market_data : Frame → ℕ → Pipeline A S → Ingested E × Pipeline A S
  market_data frame recv_ns p =
      market_message (parse_md_message frame (adapter.scales p.adapter)) recv_ns p

  -- From `apply_admin` on.
  unfoldable pub apply_message :
      AdminMessage → Option SeqVerdict → Pipeline A S → Ingested E × Pipeline A S
  apply_message msg v p =
      let (reply, disconnect) = answer msg v in
      (
        record {
          outcome = admin msg.msg_type;
          verdict = v;
          reply = reply;
          disconnect = disconnect;
        },
        count_logon (is_logon msg.msg_type) (record p { session = apply_admin msg p.session }),
      )

  unfoldable pub admin_message :
      Result FixError AdminMessage → ℕ → Pipeline A S → Ingested E × Pipeline A S
  admin_message (err e) recv_ns p = failed_with e p
  admin_message (ok msg) recv_ns p =
      if is_unflagged_reset msg
      then apply_message msg none (count_admin p)
      else (let (v, p') = observe_message msg.msg_seq_num msg.poss_dup recv_ns (count_admin p) in
          apply_message msg (some v) p')

  unfoldable pub admin_frame : Frame → ℕ → Pipeline A S → Ingested E × Pipeline A S
  admin_frame frame recv_ns p = admin_message (parse_admin_message frame) recv_ns p

  -- Everything after `msg_type`.
  unfoldable pub route :
      Result FixError MsgType → Frame → ℕ → Pipeline A S → Ingested E × Pipeline A S
  route (err e) frame recv_ns p = failed_with e p
  route (ok kind) frame recv_ns p =
      if is_market_data kind
      then market_data frame recv_ns p
      else (if is_admin kind then admin_frame frame recv_ns p else (
        plain (unhandled kind),
        record p { stats = record p.stats { unhandled = add_u64 p.stats.unhandled 1 } },
      ))

  -- `Pipeline::ingest`
  unfoldable pub ingest : Frame → ℕ → Pipeline A S → Ingested E × Pipeline A S
  ingest frame recv_ns p =
      route (msg_type frame) frame recv_ns
        (record p { stats = record p.stats { received = add_u64 p.stats.received 1 } })

  abbrev heartbeat_record : ℕ → Pipeline A S → WireRecord → Result {0, 0} Unit (WireRecord × Unit)
  heartbeat_record now p rec = ok (
    record {
      header = new_header heartbeat_kind (adapter.venue p.adapter) (replicate symbol_len 0) now;
      payload = WirePayload.heartbeat p.stats.received p.stats.published;
    },
    tt,
  )

  -- `Pipeline::heartbeat`
  unfoldable pub beat : ℕ → Pipeline A S → Pipeline A S
  beat now p = record p {
    sink = (sink.publish (heartbeat_record now p) p.sink).1;
    stats = record p.stats { heartbeats = add_u64 p.stats.heartbeats 1 };
  }

abbrev pub new_pipeline : {A S : Type 0} → List (List ℕ) → ℕ → A → S → Pipeline A S
new_pipeline symbols stale_ns adapter sink = record {
  symbols = symbols;
  stale_ns = stale_ns;
  session = Session.new;
  stats = no_stats;
  adapter = adapter;
  sink = sink;
}

abbrev pub reset_session : {A S : Type 0} → Pipeline A S → Pipeline A S
reset_session p = record p { session = Session.new }

abbrev pub note_bytes : {A S : Type 0} → ℕ → Pipeline A S → Pipeline A S
note_bytes n p = record p { stats = record p.stats { bytes = add_u64 p.stats.bytes n } }

abbrev pub note_reply : Reply → Stats → Stats
note_reply (heartbeat id) s = record s { heartbeats_sent = add_u64 s.heartbeats_sent 1 }
note_reply (resend begin last) s = record s {
  resend_requests_sent = add_u64 s.resend_requests_sent 1;
}
note_reply (reset new_seq) s = s
note_reply (hang_up text) s = s

abbrev pub note_sent : {A S : Type 0} → Reply → Pipeline A S → Pipeline A S
note_sent reply p = record p { stats = note_reply reply p.stats }
