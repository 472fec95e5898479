-- ===== src/Crypto/Recv/Dispatch.antt =====
-- `on_frame` of crates/jeed-crypto/src/recv/receiver.rs: what one frame does.
pub mod Reassembly
use jeed.Base.{ℕ, List, Bool, true, false, not, ◌&&◌, Option, none, some, Result, ok, err}
use jeed.Base.{if◌then◌else◌, take}
use jeed.Fix.Recv.Sink.{Sink}
use jeed.Crypto.Ws.Error.{WsError}
use jeed.Crypto.Ws.Frame.{
  Opcode, continuation, text, binary, close, ping, pong, max_control_payload, close_code,
}
use jeed.Crypto.Ws.Assembly.{Assembly, is_open, begin, append, take_message}
use jeed.Crypto.Recv.Stats.{
  note_frame, note_fragment, note_binary, note_ping, note_pong, note_close,
}
use jeed.Crypto.Recv.Pipeline.{Router, Pipeline, noted, ingest}
use jeed.Crypto.Recv.Link.{Frame, LinkError, protocol}

-- What the loop must do about a frame.
pub data Action : Type 0 where
  nothing : Action
  answer : (payload : List ℕ) → Action
  hang_up : (code : Option ℕ) → Action

abbrev pub is_binary : Opcode → Bool
is_binary binary = true
is_binary _ = false

abbrev pub State : Type 0 → Type 0 → Type 0 → Type 0
State R S E = Pipeline R S E × Assembly

module _ {R S E : Type 0} (router : Router R E) (sink : Sink S) where
  unfoldable pub ingest_message : Opcode → List ℕ → ℕ → Pipeline R S E → Pipeline R S E
  ingest_message op bytes recv_ns p =
      (ingest router sink bytes recv_ns (if is_binary op then noted note_binary p else p)).1

  -- `if let Some(…) = assembly.take()`
  abbrev pub taken : ℕ → Pipeline R S E → Option (Opcode × List ℕ) × Assembly → State R S E
  taken recv_ns p (none, a) = (p, a)
  taken recv_ns p (some (op, bytes), a) = (ingest_message op bytes recv_ns p, a)

module _ {R S E I : Type 0} (router : Router R E) (sink : Sink S) where
  -- `assembly.begin(…)?` and the fragment's count.
  abbrev pub begun :
      Pipeline R S E
      → Result {0, 0} WsError Unit × Assembly
      → Result (LinkError I) Action × State R S E
  begun p (ok u, a) = (ok nothing, (noted note_fragment p, a))
  begun p (err e, a) = (err (protocol e), (p, a))

  unfoldable pub data_frame : Frame → ℕ → State R S E → Result (LinkError I) Action × State R S E
  data_frame f recv_ns (p, a) =
      if f.fin && not (is_open a)
      then (ok nothing, (ingest_message router sink f.opcode f.payload recv_ns p, a))
      else begun p (begin f.opcode f.payload a)

  abbrev pub appended :
      Bool
      → ℕ
      → Pipeline R S E
      → Result {0, 0} WsError Unit × Assembly
      → Result (LinkError I) Action × State R S E
  appended fin recv_ns p (ok u, a) = (
    ok nothing,
    if fin
        then taken router sink recv_ns (noted note_fragment p) (take_message a)
        else (noted note_fragment p, a),
  )
  appended fin recv_ns p (err e, a) = (err (protocol e), (p, a))

  unfoldable pub continuation_frame :
      Frame → ℕ → State R S E → Result (LinkError I) Action × State R S E
  continuation_frame f recv_ns (p, a) = appended f.fin recv_ns p (append f.payload a)

  -- The `match` of `on_frame`.
  unfoldable pub on_opcode :
      Opcode → Frame → ℕ → State R S E → Result (LinkError I) Action × State R S E
  on_opcode ping f recv_ns (p, a) =
      (ok (answer (take max_control_payload f.payload)), (noted note_ping p, a))
  on_opcode pong f recv_ns (p, a) = (ok nothing, (noted note_pong p, a))
  on_opcode close f recv_ns (p, a) = (ok (hang_up (close_code f.payload)), (noted note_close p, a))
  on_opcode text f recv_ns st = data_frame f recv_ns st
  on_opcode binary f recv_ns st = data_frame f recv_ns st
  on_opcode continuation f recv_ns st = continuation_frame f recv_ns st

  unfoldable pub on_frame : Frame → ℕ → State R S E → Result (LinkError I) Action × State R S E
  on_frame f recv_ns (p, a) = on_opcode f.opcode f recv_ns (noted note_frame p, a)
