-- ===== src/Crypto/Recv/Receiver.antt =====
-- crates/jeed-crypto/src/recv/receiver.rs: `poll_once`. The clock and the socket's answers are
-- arguments.
pub mod Delivery
pub mod Lifecycle
use jeed.Base.{
  ℕ, zero, suc, ◌+◌, ◌-◌, ◌*◌, ◌^◌, min, List, [], ◌∷◌, ◌++◌, Bool, true, false, not, ◌&&◌,
}
use jeed.Base.{◌||◌, Option, none, some, Result, ok, err, ltb, ◌==◌, if◌then◌else◌}
use jeed.Fix.Recv.Sink.{Sink}
use jeed.Crypto.Ws.Frame.{Opcode, text, ping, pong}
use jeed.Crypto.Ws.Assembly.{Assembly, reset}
use jeed.Crypto.Ws.Assembly
use jeed.Crypto.Recv.Stats.{note_ping_sent, note_pong_sent, note_keepalive, note_protocol_error}
use jeed.Crypto.Recv.Stats.{note_disconnect, note_connect_failure, note_open, note_bytes}
use jeed.Crypto.Recv.Pipeline.{Router, Pipeline, noted, beat, new_pipeline}
use jeed.Crypto.Recv.Link.{Frame, Link, LinkError, closed, silent, Read, Writes}
use jeed.Crypto.Recv.Link.{fill, peek, consume_frame, send, send_close}
use jeed.Crypto.Recv.Dispatch.{Action, nothing, answer, hang_up, on_frame}

pub data Mode : Type 0 where
  spin block : Mode

pub data LinkState : Type 0 where
  disconnected opened : LinkState

-- The link's options only go to the operating system.
pub record Config : Type 0 where
  pub mode : Mode
  pub ping_interval_ns : ℕ
  pub record_heartbeat_ns : ℕ
  pub stale_ns : ℕ
  pub burst : ℕ
  pub reconnect_ns : ℕ

-- `written` is what has been given to the streams so far, oldest first.
pub record Receiver (R S E : Type 0) : Type 0 where
  pub cfg : Config
  pub pipeline : Pipeline R S E
  pub link : Option Link
  pub assembly : Assembly
  pub state : LinkState
  pub next_connect_ns : ℕ
  pub next_record_heartbeat_ns : ℕ
  pub last_rx_ns : ℕ
  pub pinged : Bool
  pub written : List ℕ

abbrev ws_message_buffer : ℕ
ws_message_buffer = 1048576

unfoldable pub new : {R S E : Type 0} → Config → R → S → Receiver R S E
new cfg router sink = record {
  cfg = cfg;
  pipeline = new_pipeline cfg.stale_ns router sink;
  link = none;
  assembly = Assembly.new ws_message_buffer;
  state = disconnected;
  next_connect_ns = 0;
  next_record_heartbeat_ns = 0;
  last_rx_ns = 0;
  pinged = false;
  written = [];
}

-- Sums and products of times saturate.
abbrev pub saturated : ℕ → ℕ
saturated n = min n (2 ^ 64 - 1)

-- What the socket and the clock answer during one round.
pub record Round (I : Type 0) : Type 0 where
  pub now : ℕ
  pub beat_now : ℕ
  pub connected : Result (LinkError I) Link
  pub mode_set : Option (LinkError I)
  pub read : Read I
  pub clock : ℕ → ℕ
  pub writes : ℕ → Writes I
  pub ping_writes : Writes I
  pub keepalive_writes : Writes I

-- The frame at the head of the link's buffer, if there is a link and a whole frame.
unfoldable pub next_frame :
    {I : Type 0} → Option Link → Result (LinkError I) (Option (Link × Frame))
next_frame none = ok none
next_frame {I = I} (some link) = elim (peek {I = I} link) [
  | err e ↦ err e
  | ok none ↦ ok none
  | ok (some f) ↦ ok (some (link, f))
]

module _ {R S E : Type 0} where
  unfoldable pub drop_link : Receiver R S E → Receiver R S E
  drop_link rx = record rx {
    link = none;
    assembly = reset rx.assembly;
    state = disconnected;
    pinged = false;
  }

  abbrev pub note : (Pipeline R S E → Pipeline R S E) → Receiver R S E → Receiver R S E
  note f rx = record rx { pipeline = f rx.pipeline }

module _ {R S E I : Type 0} where
  unfoldable pub fail : LinkError I → Receiver R S E → LinkError I × Receiver R S E
  fail e rx = (e, drop_link (note (noted note_disconnect) rx))

  -- What a call of `send` leaves behind.
  abbrev pub after_send :
      Receiver R S E
      → Result {0, 0} (LinkError I) Unit × (List ℕ × Link)
      → Result {0, 0} (LinkError I) Unit × Receiver R S E
  after_send rx (r, (bytes, link)) =
      (r, record rx { link = some link; written = rx.written ++ bytes })

  -- Without a link nothing is sent.
  abbrev pub send_on :
      Option Link
      → Writes I
      → Opcode
      → List ℕ
      → Receiver R S E
      → Result {0, 0} (LinkError I) Unit × Receiver R S E
  send_on none w op payload rx = (ok tt, rx)
  send_on (some link) w op payload rx = after_send rx (send w op payload link)

  abbrev pub send_frame :
      Writes I
      → Opcode
      → List ℕ
      → Receiver R S E
      → Result {0, 0} (LinkError I) Unit × Receiver R S E
  send_frame w op payload rx = send_on rx.link w op payload rx

  -- Whether the Close was sent is not asked.
  unfoldable pub shutdown : Writes I → ℕ → Receiver R S E → Receiver R S E
  shutdown w code rx =
      drop_link
        (elim rx.link [ none ↦ rx | some link ↦ (after_send rx (send_close w code link)).1 ])

  -- `if let Err(e) = … { return Some(self.fail(e)) }`
  abbrev pub or_fail :
      Result {0, 0} (LinkError I) Unit × Receiver R S E → Option (LinkError I) × Receiver R S E
  or_fail (ok u, rx) = (none, rx)
  or_fail (err e, rx) = let (e', rx') = fail e rx in (some e', rx')

  -- What is done about an action; no error means that the loop goes on.
  unfoldable pub act :
      Writes I
      → Result (LinkError I) Action
      → Receiver R S E
      → Option (LinkError I) × Receiver R S E
  act w (ok nothing) rx = (none, rx)
  act w (ok (answer payload)) rx =
      or_fail (send_frame w pong payload (note (noted note_pong_sent) rx))
  act w (ok (hang_up code)) rx =
      (some (closed code), shutdown w 1000 (note (noted note_disconnect) rx))
  act w (err e) rx =
      (some e, shutdown w 1002 (note (λ p. noted note_disconnect (noted note_protocol_error p)) rx))

  -- Our own ping, `jeed`.
  unfoldable pub send_ping : Writes I → Receiver R S E → Option (LinkError I) × Receiver R S E
  send_ping w rx = or_fail (
      send_frame w ping (106 ∷ 101 ∷ 101 ∷ 100 ∷ [])
        (note (noted note_ping_sent) (record rx { pinged = true })))

  abbrev pub refused : LinkError I → Receiver R S E → Option (LinkError I) × Receiver R S E
  refused e rx = (some e, note (noted note_connect_failure) rx)

  abbrev pub connect : Round I → Receiver R S E → Option (LinkError I) × Receiver R S E
  connect e rx = elim e.connected [
    | err why ↦ refused why rx
    | ok link ↦ elim e.mode_set [
      | some why ↦ refused why rx
      | none ↦ (
        none,
        note (noted note_open) (record rx {
          assembly = reset rx.assembly;
          link = some link;
          state = opened;
          last_rx_ns = e.now;
          pinged = false;
        }),
      )
    ]
  ]

  unfoldable pub try_connect : Round I → Receiver R S E → Option (LinkError I) × Receiver R S E
  try_connect e rx =
      if ltb e.now rx.next_connect_ns
      then (none, rx)
      else connect e (record rx { next_connect_ns = saturated (e.now + rx.cfg.reconnect_ns) })

module _ {R S E : Type 0} (router : Router R E) (sink : Sink S) where
  unfoldable pub beat_record : ℕ → Receiver R S E → Receiver R S E
  beat_record now rx =
      if rx.cfg.record_heartbeat_ns == 0 || ltb now rx.next_record_heartbeat_ns
      then rx
      else record (note (beat router sink now) rx) {
        next_record_heartbeat_ns = saturated (now + rx.cfg.record_heartbeat_ns);
      }

module _ {R S E I : Type 0} (router : Router R E) (sink : Sink S) where
  -- One frame: acted on, dropped from the buffer, answered.
  unfoldable pub take_frame :
      ℕ → Writes I → Link → Frame → Receiver R S E → Option (LinkError I) × Receiver R S E
  take_frame recv_ns w link f rx =
      let (acted, (p, a)) = on_frame router sink f recv_ns (rx.pipeline, rx.assembly) in
      act w acted (record rx {
        pipeline = p;
        assembly = a;
        link = some (consume_frame f.len link);
        last_rx_ns = recv_ns;
        pinged = false;
      })

  -- The loop of `pump`, `n` rounds to go: round `i` reads the clock once, and its writes are answered
  -- once.
  unfoldable pub frames_loop :
      (ℕ → ℕ) → (ℕ → Writes I) → ℕ → ℕ → Receiver R S E → Option (LinkError I) × Receiver R S E
  frames_loop clock w zero i rx = (none, rx)
  frames_loop clock w (suc n) i rx = elim (next_frame rx.link) [
    | err e ↦ (let (e', rx') = fail e (note (noted note_protocol_error) rx) in (some e', rx'))
    | ok none ↦ (none, rx)
    | ok (some (link, f)) ↦
        (let (stop, rx') = take_frame (clock i) (w i) link f rx in
          elim stop [ some e ↦ (some e, rx') | none ↦ frames_loop clock w n (suc i) rx' ])
  ]

  -- The venue's own ping.
  unfoldable pub keepalive : ℕ → Writes I → Receiver R S E → Option (LinkError I) × Receiver R S E
  keepalive now w rx =
      let (due, r) = router.keepalive now rx.pipeline.router in
      let rx' = note (λ p. record p { router = r }) rx in
      elim due [
        | none ↦ (none, rx')
        | some payload ↦ or_fail (send_frame w text payload (note (noted note_keepalive) rx'))
      ]

  -- After our ping.
  abbrev pub and_keepalive :
      ℕ → Writes I → Option (LinkError I) × Receiver R S E → Option (LinkError I) × Receiver R S E
  and_keepalive now w (some e, rx) = (some e, rx)
  and_keepalive now w (none, rx) = keepalive now w rx

  unfoldable pub tick :
      ℕ → Writes I → Writes I → Receiver R S E → Option (LinkError I) × Receiver R S E
  tick now w1 w2 rx =
      let interval = rx.cfg.ping_interval_ns in
      let quiet = now - rx.last_rx_ns in
      if not (interval == 0) && ltb (saturated (interval * 2)) quiet
      then (some silent, shutdown w1 1001 (note (noted note_disconnect) rx))
      else (if not (interval == 0) && (not rx.pinged && ltb interval quiet)
          then and_keepalive now w2 (send_ping w1 rx)
          else keepalive now w2 rx)

  -- What the loop ends with: the reason to stop, or else the tick.
  abbrev pub and_tick :
      Round I → Option (LinkError I) × Receiver R S E → Option (LinkError I) × Receiver R S E
  and_tick e (some why, rx) = (some why, rx)
  and_tick e (none, rx) = tick e.now e.ping_writes e.keepalive_writes rx

  -- After the read.
  abbrev pub pump_filled :
      Round I → Result (LinkError I) ℕ → Receiver R S E → Option (LinkError I) × Receiver R S E
  pump_filled e (err why) rx = let (e', rx') = fail why rx in (some e', rx')
  pump_filled e (ok n) rx =
      and_tick e (frames_loop e.clock e.writes rx.cfg.burst 0 (note (noted (note_bytes n)) rx))

  abbrev pub pump_on :
      Option Link → Round I → Receiver R S E → Option (LinkError I) × Receiver R S E
  pump_on none e rx = (none, record rx { state = disconnected })
  pump_on (some link) e rx =
      let (got, link') = fill e.read link in pump_filled e got (record rx { link = some link' })

  unfoldable pub pump : Round I → Receiver R S E → Option (LinkError I) × Receiver R S E
  pump e rx = pump_on rx.link e rx

  abbrev pub by_state : LinkState → Round I → Receiver R S E → Option (LinkError I) × Receiver R S E
  by_state disconnected e rx = try_connect e rx
  by_state opened e rx = pump e rx

  unfoldable pub poll_once : Round I → Receiver R S E → Option (LinkError I) × Receiver R S E
  poll_once e rx =
      let (failure, rx') = by_state rx.state e rx in
      (failure, beat_record router sink e.beat_now rx')

  -- The loop of `run_until`, over the rounds until it is told to stop, and the errors that it reports.
  unfoldable pub run : List (Round I) → Receiver R S E → List (LinkError I) × Receiver R S E
  run [] rx = ([], rx)
  run (e ∷ es) rx =
      let (failure, rx') = poll_once e rx in
      let (errors, rx'') = run es rx' in
      (elim failure [ none ↦ errors | some why ↦ why ∷ errors ], rx'')

  -- The loop, and the Close with `CLOSE_GOING_AWAY` after it.
  unfoldable pub run_until :
      List (Round I) → Writes I → Receiver R S E → List (LinkError I) × Receiver R S E
  run_until es w rx = let (errors, rx') = run es rx in (errors, shutdown w 1001 rx')
