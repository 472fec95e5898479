-- ===== src/Fix/Recv/Pipeline/Verdicts.antt =====
-- What the pipeline does with a message whose number has been seen.
use jeed.Base.{ℕ, ◌<◌, ◌≡◌, arith, some, true, not}
use jeed.Base.{ok}
use jeed.Fix.Frame.{Frame}
use jeed.Fix.MsgType.{sequence_reset}
use jeed.Fix.Session.{duplicate, observe, apply_admin, AdminMessage}
use jeed.Fix.Admin.{parse_admin_message}
use jeed.Fix.MarketData.Entry.{MdMessage}
use jeed.Fix.MarketData.Parse.{parse_md_message}
use jeed.Fix.Recv.Sink.{Sink, MdAdapter}
use jeed.Fix.Recv.Pipeline.{
  Pipeline, market_data, market_message, admin_frame, judged, observe_message,
}
use jeed.Fix.Recv.Pipeline.{admin_message, apply_message, answer}

module _ {A S E : Type 0} (adapter : MdAdapter A E) (sink : Sink S) where
  -- Market data whose number is below the expected one reaches neither the adapter nor the sink, and
  -- does not move the expected number; the connection goes down exactly where the message does not say
  -- that it is a resend.
  pub market_data-seen :
      (frame : Frame) (ns : ℕ) (p : Pipeline A S) (msg : MdMessage)
      → parse_md_message frame (adapter.scales p.adapter) ≡ ok msg
      → msg.msg_seq_num < p.session.next_expected
      → let (out, q) = market_data adapter sink frame ns p in
        (q.sink ≡ p.sink)
        × (q.adapter ≡ p.adapter)
        × (q.session.next_expected ≡ p.session.next_expected)
        × (out.disconnect ≡ not msg.poss_dup)
  unfolding market_data market_message observe_message observe judged
  market_data-seen frame ns p msg h below = rw h (ground arith)

  -- Administration is applied whatever its verdict: a gap fill that is marked a resend of a number
  -- already seen is judged a duplicate, and still sets the expected number to the one that it names.
  pub admin_frame-seen :
      (frame : Frame) (ns : ℕ) (p : Pipeline A S) (msg : AdminMessage) (new_seq : ℕ)
      → parse_admin_message frame ≡ ok msg
      → msg.msg_type ≡ sequence_reset
      → msg.gap_fill ≡ true
      → msg.poss_dup ≡ true
      → msg.new_seq_no ≡ some new_seq
      → msg.msg_seq_num < p.session.next_expected
      → let (out, q) = admin_frame adapter sink frame ns p in
        (out.verdict ≡ some (duplicate p.session.next_expected msg.msg_seq_num))
        × (q.session.next_expected ≡ new_seq)
  unfolding admin_frame admin_message apply_message apply_admin observe_message observe answer
  admin_frame-seen frame ns p msg new_seq h kind gap dup named below =
      rw (h, kind, gap, dup, named) (ground arith)
