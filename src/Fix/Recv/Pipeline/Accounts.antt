-- ===== src/Fix/Recv/Pipeline/Accounts.antt =====
-- Where every message that the pipeline takes in is counted.
use jeed.Base.{ℕ, ◌+◌, ◌%◌, ◌^◌, Option, Bool, ◌≡◌, refl, arith}
use jeed.Base.{Result, ok, err, Bool-cases, inl, inr}
use jeed.Fix.Error.{FixError}
use jeed.Fix.Frame.{Frame}
use jeed.Fix.MsgType.{MsgType, is_market_data, is_admin}
use jeed.Fix.Session.{SessionState, SeqVerdict, in_order, gap, duplicate, regression, AdminMessage}
use jeed.Fix.Session.{observe, apply_admin, apply_type}
use jeed.Fix.MarketData.Entry.{MdMessage}
use jeed.Fix.Recv.Stats.{Stats, note_verdict}
use jeed.Fix.Recv.SymbolFilter.{allows_message}
use jeed.Fix.Recv.Sink.{Sink, MdAdapter}
use jeed.Fix.Recv.Pipeline.{Pipeline, Reply, is_logon, is_unflagged_reset}
use jeed.Fix.Recv.Pipeline.{failed_with, settle, deliver, judged, observe_message, market_message}
use jeed.Fix.Recv.Pipeline.{
  count_market_data, market_data, apply_message, admin_message, admin_frame, route, ingest,
}

-- Every message received is in exactly one of the four counts, in arithmetic modulo 2 ^ 64.
abbrev pub Accounted : Stats → Type 0
Accounted s =
    s.received % 2 ^ 64 ≡ (s.decode_failed + s.unhandled + s.market_data + s.admin) % 2 ^ 64

-- The counters of verdicts say what the session's own say.
abbrev pub Agrees : SessionState → Stats → Type 0
Agrees s t =
    (t.gaps ≡ s.gaps)
    × (t.lost ≡ s.lost)
    × (t.duplicates ≡ s.duplicates)
    × (t.regressions ≡ s.regressions)

-- The same in every count that `Accounted` reads.
abbrev SameRoutes : Stats → Stats → Type 0
SameRoutes s t =
    (t.received ≡ s.received)
    × (t.decode_failed ≡ s.decode_failed)
    × (t.unhandled ≡ s.unhandled)
    × (t.market_data ≡ s.market_data)
    × (t.admin ≡ s.admin)

same_routes : (s : Stats) → SameRoutes s s
same_routes s = (refl, refl, refl, refl, refl)

note_verdict-SameRoutes : (v : SeqVerdict) (s : Stats) → SameRoutes s (note_verdict v s)
unfolding note_verdict
note_verdict-SameRoutes in_order s = same_routes s
note_verdict-SameRoutes (gap e r n) s = same_routes s
note_verdict-SameRoutes (duplicate e r) s = same_routes s
note_verdict-SameRoutes (regression e r) s = same_routes s

observe-Agrees :
    (s : SessionState) (t : Stats) (seq : ℕ) (dup : Bool) (ns : ℕ)
    → Agrees s t
    → let (s', v) = observe s seq dup ns in Agrees s' (note_verdict v t)
unfolding observe note_verdict
observe-Agrees s t seq dup ns h = ground arith

apply_type-Agrees :
    (kind : MsgType) (secs new_seq : Option ℕ) (s : SessionState) (t : Stats)
    → Agrees s t
    → Agrees (apply_type kind secs new_seq s) t
apply_type-Agrees kind secs new_seq s t h = ground arith

module _ {A S : Type 0} where
  -- The same in every count that `Accounted` or `Agrees` reads.
  abbrev Untouched : Pipeline A S → Pipeline A S → Type 0
  Untouched p q =
      SameRoutes p.stats q.stats
      × (q.stats.gaps ≡ p.stats.gaps)
      × (q.stats.lost ≡ p.stats.lost)
      × (q.stats.duplicates ≡ p.stats.duplicates)
      × (q.stats.regressions ≡ p.stats.regressions)
      × (q.session ≡ p.session)

  untouched : (p : Pipeline A S) → Untouched p p
  untouched p = (same_routes p.stats, refl, refl, refl, refl, refl)

  -- What is true between messages.
  abbrev pub Booked : Pipeline A S → Type 0
  Booked p = Accounted p.stats × Agrees p.session p.stats

module _ {A S E : Type 0} (adapter : MdAdapter A E) (sink : Sink S) where
  settle-Untouched :
      (v : SeqVerdict) (reply : Option Reply) (p : Pipeline A S) (r : Result E ℕ × (A × (S × ℕ)))
      → Untouched p (settle adapter sink v reply p r).1
  unfolding settle
  settle-Untouched v reply p (ok n, rest) = untouched p
  settle-Untouched v reply p (err e, rest) = untouched p

  deliver-Untouched :
      (msg : MdMessage) (ns : ℕ) (v : SeqVerdict) (reply : Option Reply) (p : Pipeline A S)
      → Untouched p (deliver adapter sink msg ns v reply p).1
  unfolding deliver
  deliver-Untouched msg ns v reply p = elim (Bool-cases (allows_message p.symbols msg)) [
    | inl e ↦ rw e (settle-Untouched v reply p _)
    | inr e ↦ rw e (untouched p)
  ]

  judged-Untouched :
      (msg : MdMessage) (ns : ℕ) (v : SeqVerdict) (p : Pipeline A S)
      → Untouched p (judged adapter sink msg ns v p).1
  unfolding judged
  judged-Untouched msg ns in_order p = deliver-Untouched msg ns _ _ p
  judged-Untouched msg ns (gap e r n) p = deliver-Untouched msg ns _ _ p
  judged-Untouched msg ns (duplicate e r) p = untouched p
  judged-Untouched msg ns (regression e r) p = untouched p

  -- A message that has been received and is not yet counted.
  abbrev Pending : Pipeline A S → Type 0
  Pending p =
      (p.stats.received % 2 ^ 64
        ≡ (1 + p.stats.decode_failed + p.stats.unhandled + p.stats.market_data + p.stats.admin)
          % 2 ^ 64)
      × Agrees p.session p.stats

  failed_with-Booked :
      (e : FixError) (p : Pipeline A S) → Pending p → Booked (failed_with adapter sink e p).1
  unfolding failed_with
  failed_with-Booked e p h = ground arith

  Untouched-Booked : (p q : Pipeline A S) → Untouched p q → Booked p → Booked q
  Untouched-Booked p q u h = ground arith

  judged-Booked :
      (msg : MdMessage) (ns : ℕ) (v : SeqVerdict) (p : Pipeline A S)
      → Booked p
      → Booked (judged adapter sink msg ns v p).1
  judged-Booked msg ns v p =
      Untouched-Booked p (judged adapter sink msg ns v p).1 (judged-Untouched msg ns v p)

  -- The judged message is counted, in `p`, with its verdict still to come.
  observe_message-Booked :
      (seq : ℕ) (dup : Bool) (ns : ℕ) (p : Pipeline A S)
      → Booked p
      → Booked (observe_message adapter sink seq dup ns p).1
  unfolding observe_message
  observe_message-Booked seq dup ns p h = (
    routes (note_verdict (observe p.session seq dup ns).1 p.stats) h.0
        (note_verdict-SameRoutes _ p.stats),
    observe-Agrees p.session p.stats seq dup ns h.1,
  )
    where
      routes : (t : Stats) → Accounted p.stats → SameRoutes p.stats t → Accounted t
      routes t a u = ground arith

  market_message-Booked :
      (r : Result FixError MdMessage) (ns : ℕ) (p : Pipeline A S)
      → Pending p
      → Booked (market_message adapter sink r ns p).1
  unfolding market_message
  market_message-Booked (err e) ns p h = failed_with-Booked e p h
  market_message-Booked (ok msg) ns p h =
      judged-Booked msg ns (observe_message adapter sink msg.msg_seq_num msg.poss_dup ns counted).0
        (observe_message adapter sink msg.msg_seq_num msg.poss_dup ns counted).1
        (observe_message-Booked msg.msg_seq_num msg.poss_dup ns counted (omega (arith, h.0), h.1))
    where
      counted : Pipeline A S
      counted = count_market_data adapter sink p

  apply_message-Booked :
      (msg : AdminMessage) (v : Option SeqVerdict) (p : Pipeline A S)
      → Booked p
      → Booked (apply_message adapter sink msg v p).1
  unfolding apply_message apply_admin
  apply_message-Booked msg v p h = elim (Bool-cases (is_logon msg.msg_type)) [
    | inl e ↦ rw e (h.0, agrees)
    | inr e ↦ rw e (h.0, agrees)
  ]
    where
      agrees : Agrees (apply_admin msg p.session) p.stats
      agrees =
          apply_type-Agrees msg.msg_type msg.heartbeat_secs msg.new_seq_no p.session p.stats h.1

  admin_message-Booked :
      (r : Result FixError AdminMessage) (ns : ℕ) (p : Pipeline A S)
      → Pending p
      → Booked (admin_message adapter sink r ns p).1
  unfolding admin_message
  admin_message-Booked (err e) ns p h = failed_with-Booked e p h
  admin_message-Booked (ok msg) ns p h = elim (Bool-cases (is_unflagged_reset msg)) [
    | inl e ↦ rw e (apply_message-Booked msg _ _ (omega (arith, h.0), h.1))
    | inr e ↦ rw e (
        apply_message-Booked msg _ _
          (observe_message-Booked msg.msg_seq_num msg.poss_dup ns _ (omega (arith, h.0), h.1)))
  ]

  route-Booked :
      (r : Result FixError MsgType) (frame : Frame) (ns : ℕ) (p : Pipeline A S)
      → Pending p
      → Booked (route adapter sink r frame ns p).1
  unfolding route market_data admin_frame
  route-Booked (err e) frame ns p h = failed_with-Booked e p h
  route-Booked (ok kind) frame ns p h = elim (Bool-cases (is_market_data kind)) [
    | inl e ↦ rw e (market_message-Booked _ ns p h)
    | inr e ↦ rw e (elim (Bool-cases (is_admin kind)) [
      | inl a ↦ rw a (admin_message-Booked _ ns p h)
      | inr a ↦ rw a (omega (arith, h.0), h.1)
    ])
  ]

  -- Whatever a frame holds and whatever the adapter and the sink do, `ingest` keeps the books: each
  -- message received is in exactly one of the counts of the undecodable, the unhandled, market data and
  -- administration, modulo 2 ^ 64, and the counts of verdicts agree with the session's own.
  pub ingest-Booked :
      (frame : Frame) (ns : ℕ) (p : Pipeline A S)
      → Booked p
      → Booked (ingest adapter sink frame ns p).1
  unfolding ingest
  ingest-Booked frame ns p h = route-Booked _ frame ns _ (omega (arith, h.0), h.1)
