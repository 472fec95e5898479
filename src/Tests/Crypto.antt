-- ===== src/Tests/Crypto.antt =====
-- WebSocket frames through the link and the receive loop, into a router that keeps every message.
use jeed.Base.{ℕ, ◌+◌, ◌≡◌, refl, arith, List, [], ◌∷◌, ◌++◌, true, false}
use jeed.Base.{none, some, Result, ok, err, take, drop, replicate}
use jeed.Fix.Recv.Sink.{Sink, WireRecord, WirePayload}
use jeed.Wire.Header.{new_header}
use jeed.Wire.Types.{symbol_len}
use jeed.Crypto.Ws.Error.{message_too_long}
use jeed.Crypto.Ws.Frame.{
  Opcode, FrameHeader, text, binary, ping, continuation, parse_header, write_frame,
}
use jeed.Crypto.Ws.Frame.{framed_len, is_control, from_u8, parse_length, finish_header}
use jeed.Crypto.Ws.Frame
use jeed.Crypto.Ws.Frame.Server.{server_header, IsSendable, parse_header-server_header}
use jeed.Crypto.Ws.Frame.Sound.{IsSound, parse_header-IsSound}
use jeed.Crypto.Ws.Frame.Client.{read_client, write_frame-read_client}
use jeed.Crypto.Ws.Assembly.{Assembly}
use jeed.Crypto.Ws.Assembly.Messages.{assemble, assemble_lem}
use jeed.Crypto.Recv.Pipeline.{Router, Pipeline, noted, new_pipeline}
use jeed.Crypto.Recv.Stats.{note_frame, note_fragment}
use jeed.Crypto.Recv.Link.{Link, Writes, peek, would_block}
use jeed.Crypto.Recv.Link.Buffer.{IsValid}
use jeed.Crypto.Recv.Link.Frames.{frame_of, peek-take}
use jeed.Crypto.Recv.Dispatch.{nothing, answer, on_frame, on_opcode, data_frame, ingest_message}
use jeed.Crypto.Recv.Dispatch.Reassembly.{Between, pinged, more, is_text, on_frames, count_all}
use jeed.Crypto.Recv.Dispatch.Reassembly.{on_frames-message}
use jeed.Crypto.Recv.Receiver.{Receiver, Round, Config, block, opened, disconnected, frames_loop}
use jeed.Crypto.Recv.Receiver.{poll_once, run, run_until}
use jeed.Crypto.Recv.Receiver
use jeed.Crypto.Recv.Receiver.Delivery.{Sent, Ends, frames_loop-Ends}
use jeed.Crypto.Recv.Receiver.Lifecycle.{IsConsistent, IsDown, GoesOnOrIsDown}
use jeed.Crypto.Recv.Receiver.Lifecycle.{poll_once-GoesOnOrIsDown, run-IsConsistent}

-- `{}` as a final text frame.
abbrev small : List ℕ
small = 123 ∷ 125 ∷ []

small-IsSendable : IsSendable true text 2
unfolding is_control
small-IsSendable = record { short = omega arith; control = λ e. cc }

parse_header-server_header_example :
    parse_header (server_header true text 2 ++ small)
    ≡ ok (some (record { fin = true; opcode = text; header_len = 2; payload_len = 2 }))
parse_header-server_header_example = parse_header-server_header true text 2 small small-IsSendable

reads_small :
    parse_header (129 ∷ 2 ∷ small)
    ≡ ok (some (record { fin = true; opcode = text; header_len = 2; payload_len = 2 }))
unfolding Frame.as_u8
reads_small = parse_header-server_header true text 2 small small-IsSendable

parse_header-IsSound_example :
    IsSound
      (129 ∷ 2 ∷ small)
      (record { fin = true; opcode = text; header_len = 2; payload_len = 2 })
parse_header-IsSound_example = parse_header-IsSound (129 ∷ 2 ∷ small) _ reads_small

abbrev key : List ℕ
key = 1 ∷ 2 ∷ 3 ∷ 4 ∷ []

write_frame-read_client_example :
    (out' : List ℕ) × (write_frame (replicate 10 7) text small key ≡ ok (framed_len 2, out'))
    × (read_client (take (framed_len 2) out') ≡ some (text, small))
    × (drop (framed_len 2) out' ≡ drop (framed_len 2) (replicate 10 7))
unfolding is_control framed_len
write_frame-read_client_example =
    write_frame-read_client (replicate 10 7) text small key refl (omega arith) (λ e. cc)
      (omega arith)

-- A buffer of five bytes.
abbrev five : Assembly
five = record { buf = replicate 5 0; len = 0; opened = none }

assemble_lem_example :
    ((assemble text (1 ∷ 2 ∷ []) ((3 ∷ []) ∷ (4 ∷ 5 ∷ []) ∷ []) five).0
      ≡ ok (some (text, 1 ∷ 2 ∷ 3 ∷ 4 ∷ 5 ∷ [])))
    × ((assemble text (1 ∷ 2 ∷ []) ((3 ∷ []) ∷ (4 ∷ 5 ∷ []) ∷ []) five).1.opened ≡ none)
assemble_lem_example = assemble_lem text (1 ∷ 2 ∷ []) ((3 ∷ []) ∷ (4 ∷ 5 ∷ []) ∷ []) five refl

-- One byte more is refused.
too_long :
    ((assemble text (1 ∷ 2 ∷ []) ((3 ∷ []) ∷ (4 ∷ 5 ∷ 6 ∷ []) ∷ []) five).0
      ≡ err (message_too_long 5))
    × ((assemble text (1 ∷ 2 ∷ []) ((3 ∷ []) ∷ (4 ∷ 5 ∷ 6 ∷ []) ∷ []) five).1.opened ≡ none)
too_long = assemble_lem text (1 ∷ 2 ∷ []) ((3 ∷ []) ∷ (4 ∷ 5 ∷ 6 ∷ []) ∷ []) five refl

abbrev keep :
    {A E : Type 0} → List WireRecord → Result E (WireRecord × A) → Result E A × List WireRecord
keep kept (ok (rec, a)) = (ok a, rec ∷ kept)
keep kept (err e) = (err e, kept)

abbrev list_sink : Sink (List WireRecord)
list_sink = record {
  publish = λ fill kept. keep kept (
      fill (record {
        header = new_header 0 0 (replicate symbol_len 0) 0;
        payload = WirePayload.other [];
      }));
  note_drops = λ n kept. kept;
}

-- Its state is what it was given, the latest first.
abbrev keeping : Router (List (List ℕ)) ℕ
keeping = record {
  venue = λ r. 7;
  route = λ sink msg ns st. (ok 1, (msg ∷ st.0, st.1));
  route_rest = λ sink i msg ns st. (ok 1, (msg ∷ st.0, st.1));
  keepalive = λ now r. (none, r);
}

abbrev fresh : Pipeline (List (List ℕ)) (List WireRecord) ℕ
fresh = new_pipeline 0 [] []

-- A ping and a part of the message between its two ends.
abbrev between : List (ℕ × Between)
between = (11, pinged (9 ∷ [])) ∷ (12, more (32 ∷ [])) ∷ []

on_frames-message_example :
    let r =
      on_frames {I = ℕ} keeping list_sink
        ((10, frame_of false text (123 ∷ []))
          ∷ (11, frame_of true ping (9 ∷ []))
          ∷ (12, frame_of false continuation (32 ∷ []))
          ∷ (13, frame_of true continuation (125 ∷ []))
          ∷ [])
        (fresh, five) in
    (r.0 ≡ ok (nothing ∷ answer (9 ∷ []) ∷ nothing ∷ nothing ∷ []))
    × (r.1.0
        ≡ ingest_message keeping list_sink text
            (123 ∷ 32 ∷ 125 ∷ [])
            13
            (noted (λ s. count_all between (note_fragment (note_frame s))) fresh))
    × (r.1.1.opened ≡ none)
on_frames-message_example =
    on_frames-message {I = ℕ} keeping list_sink text (123 ∷ []) 10 between (125 ∷ []) 13 fresh five
      is_text refl (omega arith)

-- A buffer that holds one frame.
abbrev one_frame : Link
one_frame = record {
  buf = record { buf = 129 ∷ 2 ∷ 123 ∷ 125 ∷ 0 ∷ []; head = 0; len = 4 };
  out = replicate 20 0;
  mask = 1;
}

one_frame-IsValid : IsValid one_frame.buf
one_frame-IsValid = record { ordered = omega arith; within = omega arith }

abbrev live : Receiver (List (List ℕ)) (List WireRecord) ℕ
live = record {
  cfg = record {
    mode = block;
    ping_interval_ns = 0;
    record_heartbeat_ns = 0;
    stale_ns = 0;
    burst = 4;
    reconnect_ns = 5;
  };
  pipeline = fresh;
  link = some one_frame;
  assembly = five;
  state = opened;
  next_connect_ns = 0;
  next_record_heartbeat_ns = 0;
  last_rx_ns = 0;
  pinged = false;
  written = [];
}

abbrev all_written : Writes ℕ
all_written = record { written = none; flushed = none }

abbrev sent_frame : Sent
sent_frame = record { fin = true; opcode = text; payload = small }

frames_loop-Ends_example :
    Ends {I = ℕ} keeping list_sink
      (on_frames {I = ℕ} keeping list_sink ((20, frame_of true text small) ∷ []) (fresh, five)).1
      (frames_loop keeping list_sink (λ i. 20 + i) (λ i. all_written) 4 0 live)
unfolding on_frame on_opcode data_frame Frame.as_u8
frames_loop-Ends_example =
    frames_loop-Ends keeping list_sink (λ i. 20 + i) (λ i. all_written) (sent_frame ∷ []) 4 0 live
      one_frame refl one_frame-IsValid refl
      (record { sendable = small-IsSendable; fits = omega arith }, tt) (omega arith) refl

abbrev quiet : Round ℕ
quiet = record {
  now = 100;
  beat_now = 100;
  connected = ok one_frame;
  mode_set = none;
  read = would_block;
  clock = λ i. 100 + i;
  writes = λ i. all_written;
  ping_writes = all_written;
  keepalive_writes = all_written;
}

poll_once-GoesOnOrIsDown_example : GoesOnOrIsDown (poll_once keeping list_sink quiet live)
poll_once-GoesOnOrIsDown_example =
    poll_once-GoesOnOrIsDown keeping list_sink quiet live
      (record { is_opened = refl; link = one_frame; there = refl })

run-IsConsistent_example :
    IsConsistent
      (run keeping list_sink (quiet ∷ quiet ∷ []) (Receiver.new {E = ℕ} live.cfg [] [])).1
    × IsDown
        (run_until keeping list_sink
          (quiet ∷ quiet ∷ [])
          all_written
          (Receiver.new {E = ℕ} live.cfg [] [])).1
run-IsConsistent_example =
    run-IsConsistent keeping list_sink live.cfg [] [] (quiet ∷ quiet ∷ []) all_written

-- Three of its four bytes.
abbrev part : Link
part = record one_frame { buf = record one_frame.buf { len = 3 } }

peek-take_example : peek {I = ℕ} part ≡ ok none
unfolding Frame.as_u8
peek-take_example = peek-take {I = ℕ} true text small part 3 small-IsSendable refl (omega arith)
