-- ===== src/Crypto/Recv/Receiver/Lifecycle.antt =====
-- The connection's life: the link is there exactly while the state says so, and every failure of an open
-- connection drops it with all that belonged to it.
use jeed.Base.{ℕ, zero, suc, ◌≡◌, refl, false, Option, none, some, List, [], ◌∷◌, ◌⊎◌, inl, inr}
use jeed.Base.{
  if_both, subst, sym, Result, ok, err, Option-cases, Result-cases, ◌||◌, ◌==◌, ◌+◌, ltb,
}
use jeed.Fix.Recv.Sink.{Sink}
use jeed.Crypto.Ws.Frame.{Opcode}
use jeed.Crypto.Ws.Assembly.{Assembly, reset}
use jeed.Crypto.Ws.Assembly
use jeed.Crypto.Recv.Pipeline.{Router, Pipeline, noted}
use jeed.Crypto.Recv.Stats.{
  note_pong_sent, note_ping_sent, note_keepalive, note_bytes, note_connect_failure,
}
use jeed.Crypto.Recv.Link.{Frame, Link, LinkError, silent, Writes}
use jeed.Crypto.Recv.Dispatch.{Action, nothing, answer, hang_up}
use jeed.Crypto.Recv.Receiver.{Receiver, Round, disconnected, opened, new, drop_link, fail}
use jeed.Crypto.Recv.Receiver.{shutdown, or_fail, note, send_on, act, take_frame, next_frame}
use jeed.Crypto.Recv.Receiver.{
  saturated, and_keepalive, and_tick, pump_on, pump_filled, frames_loop, keepalive, send_ping, tick,
  pump, connect, try_connect,
}
use jeed.Crypto.Recv.Receiver.{beat_record, poll_once, run, run_until, by_state, Config}

pub record IsLive {R S E : Type 0} (rx : Receiver R S E) : Type 0 where
  pub is_opened : rx.state ≡ opened
  pub link : Link
  pub there : rx.link ≡ some link

-- Nothing of a connection is left.
pub record IsDown {R S E : Type 0} (rx : Receiver R S E) : Type 0 where
  pub is_disconnected : rx.state ≡ disconnected
  pub no_link : rx.link ≡ none
  pub no_message : rx.assembly.opened ≡ none
  pub not_pinged : rx.pinged ≡ false

-- An open connection goes on without an error, or an error is reported and it is down.
abbrev pub GoesOnOrIsDown : {R S E I : Type 0} → Option (LinkError I) × Receiver R S E → Type 0
GoesOnOrIsDown {I = I} r =
    ((r.0 ≡ none) × IsLive r.1) ⊎ ((e : LinkError I) × (r.0 ≡ some e) × IsDown r.1)

module _ {R S E : Type 0} where
  drop_link-IsDown : (rx : Receiver R S E) → IsDown (drop_link rx)
  unfolding drop_link reset
  drop_link-IsDown rx = record {
    is_disconnected = refl;
    no_link = refl;
    no_message = refl;
    not_pinged = refl;
  }

  -- Counting changes nothing of the connection.
  note-IsLive :
      (f : Pipeline R S E → Pipeline R S E) (rx : Receiver R S E) → IsLive rx → IsLive (note f rx)
  note-IsLive f rx v = record { is_opened = v.is_opened; link = v.link; there = v.there }

module _ {R S E I : Type 0} where
  fail-IsDown : (e : LinkError I) (rx : Receiver R S E) → IsDown (fail e rx).1
  unfolding fail
  fail-IsDown e rx = drop_link-IsDown _

  shutdown-IsDown : (w : Writes I) (code : ℕ) (rx : Receiver R S E) → IsDown (shutdown w code rx)
  unfolding shutdown
  shutdown-IsDown w code rx = drop_link-IsDown _

  or_fail_lem :
      (x : Result {0, 0} (LinkError I) Unit × Receiver R S E)
      → IsLive x.1
      → GoesOnOrIsDown (or_fail x)
  or_fail_lem (ok u, rx) v = inl (refl, v)
  or_fail_lem (err e, rx) v = inr ((fail e rx).0, refl, fail-IsDown e rx)

  send_on-IsLive :
      (l : Option Link) (w : Writes I) (op : Opcode) (payload : List ℕ) (rx : Receiver R S E)
      → IsLive rx
      → IsLive (send_on l w op payload rx).1
  send_on-IsLive none w op payload rx v = v
  send_on-IsLive (some l) w op payload rx v = record {
    is_opened = v.is_opened;
    link = _;
    there = refl;
  }

  act_lem :
      (w : Writes I) (r : Result (LinkError I) Action) (rx : Receiver R S E)
      → IsLive rx
      → GoesOnOrIsDown (act w r rx)
  unfolding act
  act_lem w (ok nothing) rx v = inl (refl, v)
  act_lem w (ok (answer payload)) rx v =
      or_fail_lem _ (send_on-IsLive rx.link w _ payload _ (note-IsLive (noted note_pong_sent) rx v))
  act_lem w (ok (hang_up code)) rx v = inr (_, refl, shutdown-IsDown w _ _)
  act_lem w (err e) rx v = inr (e, refl, shutdown-IsDown w _ _)

module _ {R S E I : Type 0} (router : Router R E) (sink : Sink S) where
  take_frame_lem :
      (t : ℕ) (w : Writes I) (link : Link) (f : Frame) (rx : Receiver R S E)
      → IsLive rx
      → GoesOnOrIsDown (take_frame router sink t w link f rx)
  unfolding take_frame
  take_frame_lem t w link f rx v =
      act_lem w _ _ (record { is_opened = v.is_opened; link = _; there = refl })

  frames_loop_lem :
      (clock : ℕ → ℕ) (w : ℕ → Writes I) (n i : ℕ) (rx : Receiver R S E)
      → IsLive rx
      → GoesOnOrIsDown (frames_loop router sink clock w n i rx)
  unfolding frames_loop
  frames_loop_lem clock w zero i rx v = inl (refl, v)
  frames_loop_lem clock w (suc n) i rx v = elim (Result-cases (next_frame {I = I} rx.link)) [
    | inr (e, broken) ↦ rw (frames_loop, broken) (inr (_, refl, fail-IsDown e _))
    | inl (none, dry) ↦ rw (frames_loop, dry) (inl (refl, v))
    | inl (some (link, f), found) ↦ elim (take_frame_lem (clock i) (w i) link f rx v) [
      | inl (goes_on, live) ↦
          rw (frames_loop, found, goes_on) (frames_loop_lem clock w n (suc i) _ live)
      | inr (e, stops, down) ↦ rw (frames_loop, found, stops) (inr (e, refl, down))
    ]
  ]

  keepalive_lem :
      (now : ℕ) (w : Writes I) (rx : Receiver R S E)
      → IsLive rx
      → GoesOnOrIsDown (keepalive router sink now w rx)
  unfolding keepalive
  keepalive_lem now w rx v =
      let asked = router.keepalive now rx.pipeline.router in
      let live = note-IsLive (λ p. record p { router = asked.1 }) rx v in
      elim (Option-cases asked.0) [
        | inl not_due ↦ rw (keepalive, not_due) (inl (refl, live))
        | inr (payload, due) ↦
            rw (keepalive, due)
              (or_fail_lem _
                (send_on-IsLive rx.link w _ payload _ (note-IsLive (noted note_keepalive) _ live)))
      ]

  tick_lem :
      (now : ℕ) (w1 w2 : Writes I) (rx : Receiver R S E)
      → IsLive rx
      → GoesOnOrIsDown (tick router sink now w1 w2 rx)
  unfolding tick send_ping
  tick_lem now w1 w2 rx v =
      if_both GoesOnOrIsDown _ _ _ (inr (silent, refl, shutdown-IsDown w1 1001 _))
        (if_both GoesOnOrIsDown _ _ _ (followed _ pinged) (keepalive_lem now w2 rx v))
    where
      followed :
          (x : Option (LinkError I) × Receiver R S E)
          → GoesOnOrIsDown x
          → GoesOnOrIsDown (and_keepalive router sink now w2 x)
      followed x (inl (goes_on, live)) = rw (and_keepalive, goes_on) (keepalive_lem now w2 _ live)
      followed x (inr (why, stops, down)) = rw (and_keepalive, stops) (inr (why, refl, down))

      pinged : GoesOnOrIsDown (send_ping {I = I} w1 rx)
      pinged = or_fail_lem _ (
          send_on-IsLive rx.link w1 _ _ _ (
            note-IsLive (noted note_ping_sent) _
              (record { is_opened = v.is_opened; link = v.link; there = v.there })))

  pump_lem :
      (e : Round I) (rx : Receiver R S E) → IsLive rx → GoesOnOrIsDown (pump router sink e rx)
  unfolding pump
  pump_lem e rx v =
      subst (λ l. GoesOnOrIsDown (pump_on router sink l e rx)) (sym v.there)
        (filled _ (record rx { link = _ })
          (record { is_opened = v.is_opened; link = _; there = refl }))
    where
      ticked :
          (x : Option (LinkError I) × Receiver R S E)
          → GoesOnOrIsDown x
          → GoesOnOrIsDown (and_tick router sink e x)
      ticked x (inl (goes_on, live)) = rw (and_tick, goes_on) (tick_lem e.now _ _ _ live)
      ticked x (inr (why, stops, down)) = rw (and_tick, stops) (inr (why, refl, down))

      filled :
          (got : Result (LinkError I) ℕ) (rx : Receiver R S E)
          → IsLive rx
          → GoesOnOrIsDown (pump_filled router sink e got rx)
      filled (err why) rx live = inr (_, refl, fail-IsDown why rx)
      filled (ok n) rx live = ticked _ (
          frames_loop_lem e.clock e.writes rx.cfg.burst 0 _
            (note-IsLive (noted (note_bytes n)) rx live))

  connect_lem :
      (e : Round I) (rx : Receiver R S E)
      → IsDown rx
      → IsDown (connect e rx).1 ⊎ (((connect e rx).0 ≡ none) × IsLive (connect e rx).1)
  connect_lem e rx d = elim (Result-cases e.connected) [
    | inr (why, fails) ↦ rw (connect, fails) (inl (still d))
    | inl (link, there) ↦ elim (Option-cases e.mode_set) [
      | inl set ↦
          rw (connect, there, set)
            (inr (refl, record { is_opened = refl; link = link; there = refl }))
      | inr (why, fails) ↦ rw (connect, there, fails) (inl (still d))
    ]
  ]
    where
      still : IsDown rx → IsDown (note {R = R} {S = S} {E = E} (noted note_connect_failure) rx)
      still d = record {
        is_disconnected = d.is_disconnected;
        no_link = d.no_link;
        no_message = d.no_message;
        not_pinged = d.not_pinged;
      }

-- Either the connection is open and there is a link, or nothing of one is left.
abbrev pub IsConsistent : {R S E : Type 0} → Receiver R S E → Type 0
IsConsistent rx = IsLive rx ⊎ IsDown rx

module _ {R S E : Type 0} (router : Router R E) (sink : Sink S) (now : ℕ)
    (rx : Receiver R S E) where
  beat_record-IsLive : IsLive rx → IsLive (beat_record router sink now rx)
  unfolding beat_record
  beat_record-IsLive v =
      if_both IsLive (rx.cfg.record_heartbeat_ns == 0 || ltb now rx.next_record_heartbeat_ns) _ _ v
        (record { is_opened = v.is_opened; link = v.link; there = v.there })

  beat_record-IsDown : IsDown rx → IsDown (beat_record router sink now rx)
  unfolding beat_record
  beat_record-IsDown d =
      if_both IsDown (rx.cfg.record_heartbeat_ns == 0 || ltb now rx.next_record_heartbeat_ns) _ _ d
        (record {
          is_disconnected = d.is_disconnected;
          no_link = d.no_link;
          no_message = d.no_message;
          not_pinged = d.not_pinged;
        })

module _ {R S E I : Type 0} (router : Router R E) (sink : Sink S) (e : Round I) where
  -- A round on an open connection either reports no error and leaves it open, or reports one and leaves
  -- nothing of it: no link, no message half put together, no ping unanswered.
  pub poll_once-GoesOnOrIsDown :
      (rx : Receiver R S E) → IsLive rx → GoesOnOrIsDown (poll_once router sink e rx)
  unfolding poll_once
  poll_once-GoesOnOrIsDown rx v =
      subst (λ st. GoesOnOrIsDown (beaten (by_state router sink st e rx))) (sym v.is_opened)
        (elim (pump_lem router sink e rx v) [
          | inl (goes_on, live) ↦ inl (goes_on, beat_record-IsLive router sink e.beat_now _ live)
          | inr (why, stops, down) ↦
              inr (why, stops, beat_record-IsDown router sink e.beat_now _ down)
        ])
    where
      beaten : Option (LinkError I) × Receiver R S E → Option (LinkError I) × Receiver R S E
      beaten (failure, rx) = (failure, beat_record router sink e.beat_now rx)

  poll_once-IsDown : (rx : Receiver R S E) → IsDown rx → IsConsistent (poll_once router sink e rx).1
  unfolding poll_once try_connect
  poll_once-IsDown rx d =
      subst
        (λ st. IsConsistent (beat_record router sink e.beat_now (by_state router sink st e rx).1))
        (sym d.is_disconnected)
        (if_both Next (ltb e.now rx.next_connect_ns) _ _ (beat_down rx d)
          (elim (connect_lem router sink e _ later) [
            | inl down ↦ beat_down _ down
            | inr (_, live) ↦ inl (beat_record-IsLive router sink e.beat_now _ live)
          ]))
    where
      Next : Option (LinkError I) × Receiver R S E → Type 0
      Next r = IsConsistent (beat_record router sink e.beat_now r.1)

      beat_down :
          (rx : Receiver R S E) → IsDown rx → IsConsistent (beat_record router sink e.beat_now rx)
      beat_down rx d = inr (beat_record-IsDown router sink e.beat_now rx d)

      later : IsDown (record rx { next_connect_ns = saturated (e.now + rx.cfg.reconnect_ns) })
      later = record {
        is_disconnected = d.is_disconnected;
        no_link = d.no_link;
        no_message = d.no_message;
        not_pinged = d.not_pinged;
      }

module _ {R S E I : Type 0} (router : Router R E) (sink : Sink S) where
  run_lem :
      (es : List (Round I)) (rx : Receiver R S E)
      → IsConsistent rx
      → IsConsistent (run router sink es rx).1
  unfolding run
  run_lem [] rx c = c
  run_lem (e ∷ es) rx (inl live) =
      run_lem es _ (elim (poll_once-GoesOnOrIsDown router sink e rx live) [
        | inl (_, still) ↦ inl still
        | inr (_, _, down) ↦ inr down
      ])
  run_lem (e ∷ es) rx (inr down) = run_lem es _ (poll_once-IsDown router sink e rx down)

  run_until-IsDown :
      (es : List (Round I)) (w : Writes I) (rx : Receiver R S E)
      → IsDown (run_until router sink es w rx).1
  unfolding run_until
  run_until-IsDown es w rx = shutdown-IsDown w _ _

  -- From boot on, after any number of rounds and whatever the socket answers in them: the state is open
  -- exactly while there is a link, and without one nothing of a connection is left. And when the rounds
  -- are over and `run_until` returns, nothing of a connection is left.
  pub run-IsConsistent :
      (cfg : Config) (r : R) (s : S) (es : List (Round I)) (w : Writes I)
      → IsConsistent (run router sink es (new {E = E} cfg r s)).1
        × IsDown (run_until router sink es w (new {E = E} cfg r s)).1
  unfolding new Assembly.new
  run-IsConsistent cfg r s es w = (
    run_lem es _ (
        inr (record {
          is_disconnected = refl;
          no_link = refl;
          no_message = refl;
          not_pinged = refl;
        })),
    run_until-IsDown es w _,
  )
