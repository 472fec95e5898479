-- ===== src/Lib.antt =====
-- Jeed, a market data feed handler: a verification library.
--
-- Jeed receives exchange data over UDP, WebSocket and FIX, decodes each message into a fixed record
-- of 640 bytes, and publishes it to a ring in shared memory, which a separate process reads. This
-- library models parts of it as pure functions and step relations, with the theorems about them.
--
-- Fix (crates/jeed-fix/src)
--   Fix/Error.antt        error.rs: `FixError`.
--   Fix/TagValue.antt     tagvalue.rs: `split_field`, the `Fields` iterator, `parse_u64`. Its children
--                         are about numerals (Digits, Numeral) and scans (Scan).
--   Fix/MsgType.antt      tagvalue.rs: `MsgType`.
--   Fix/Decimal.antt      tagvalue.rs: `parse_scaled_decimal`, loop by loop; Exact has its theorem.
--   Fix/Time.antt         tagvalue.rs: `parse_utc_date`, `parse_utc_time`, `parse_utc_timestamp` and
--                         `days_from_civil`. Children: the calendar, day by day (Calendar), and
--                         `civil_from_days` of recv/emit.rs, the way back (Civil).
--   Fix/Value.antt        tagvalue.rs: `Field`'s accessors; market_data.rs: `FixText`.
--   Fix/Frame.antt        frame.rs: `frame` and `checksum`, one function for each stage. Children: the
--                         written form of a message (Message) and its prefixes (Prefix).
--   Fix/FrameBuffer.antt  frame.rs: `FrameBuffer<N>`, with the array as a list and `len`. Children:
--                         the buffer as a queue (Queue), and the reading loop (Drain).
--   Fix/Session.antt      session.rs: `SessionState` and its operations; Counters has the theorems.
--   Fix/Admin.antt        session.rs: `msg_type` and `parse_admin_message`.
--   Fix/MarketData        market_data.rs: the types (Entry), `parse_md_message` and `push_entry`
--                         (Parse), what a decoded message is (Entries), and written quotes (Quote)
--                         through the decoder (Quotes).
--   Fix/Recv              recv/stats.rs (Stats), recv/filter.rs (SymbolFilter, with its
--                         binary search in Search and its keys in Keys), the sink, the venue's
--                         adapter and the guard that marks stale records (Sink, with Staleness),
--                         and recv/pipeline.rs (Pipeline). Pipeline's children: its counters
--                         (Accounts), and messages whose number has been seen (Verdicts).
--   Fix/Emit              recv/emit.rs: `Writer` and `write_sending_time` (Writer), `Emitter` and its
--                         messages (Emitter). What the writers write (Writes, Built), what `build`
--                         answers (Sent), time stamps there and back (Stamp, StampRead), and what
--                         the reading side makes of the messages (Read, Messages).
-- A frame is cut out of the receive buffer and its body scanned for fields. The pipeline decodes it by
-- its type, lets the session judge its sequence number, filters by symbol, and hands market data to
-- the venue's adapter, which publishes records to the sink; the emitter writes what the session sends.
--
-- Wire (crates/jeed-wire/src)
--   Wire/Error.antt       error.rs: `WireError`; kind.rs: `WireKind`.
--   Wire/Types.antt       types.rs and kind.rs: kinds, venues and scales by their bytes, and symbols.
--                         Symbol is about their padding.
--   Wire/Header.antt      header.rs: `RecordHeader`. Valid is about its validation.
--   Wire/Segment.antt     segment.rs: `SegmentHeader`, its check and the length that it claims.
-- The adapters fill in headers; the pipeline marks the flags of those that are stale.
--
-- Shm (crates/jeed-shm/src)
--   Shm/Ring.antt         ring.rs: slot arithmetic and the sentinel.
--   Shm/Race.antt         producer.rs and consumer.rs, a memory access at a time, interleaved. Children:
--                         the sequence lock's invariant (Invariant), and where it fails (Torn).
--   Shm/Consumer.antt     consumer.rs: `attach` and `try_recv` as functions of what they load. Children:
--                         where slots lie (Bounds, Wraps), and losses (Accounts).
--
-- Crypto (crates/jeed-crypto/src)
--   Crypto/Ws             recv/ws/mod.rs: `WsError` (Error); recv/ws/frame.rs (Frame), with a server's
--                         headers (Frame/Server, Frame/Sound) and what a server makes of ours
--                         (Frame/Client); recv/ws/assemble.rs (Assembly), with whole messages
--                         (Assembly/Messages).
--   Crypto/Recv/Link.antt recv/link.rs: the receive buffer, `peek`, the sends. Children: the buffer as a
--                         queue (Buffer), and frames in it (Frames).
--   Crypto/Recv           recv/stats.rs (Stats), recv/pipeline.rs (Pipeline), and recv/receiver.rs:
--                         `on_frame` (Dispatch, with Dispatch/Reassembly), `poll_once` and
--                         `run_until` (Receiver, with Receiver/Delivery and Receiver/Lifecycle).
-- The loop reads into the link's buffer, takes frames from its head, puts fragments together and hands
-- messages to the pipeline, whose router is the venue's; it answers pings, sends its own, and drops the
-- connection with all that belongs to it on any failure. The clock, and what the socket answers, are
-- arguments of each round.
--
-- Convert (crates/jeed-convert/src)
--   Convert/Error.antt    error.rs: `ParseErr`.
--   Convert/Check.antt    decimal_core/check.rs; Borrows is about the borrows between a word's bytes.
--   Convert/Bcd.antt      decimal_core/bcd.rs. Children: a word as lanes (Lanes), the steps on them
--                         (Stages), and the values (Value).
--   Convert/Checked.antt  decimal_core/le_bytes.rs and checked_conversion.rs; Exact has their answers.
--   Convert/Unsigned.antt integer_parser/unsigned_decimal.rs, for `u64`: the `match` on the length is
--                         a table. Children: texts cut into words (Words), up to nineteen digits
--                         (Exact), and twenty (Wraps).
-- A decoder hands it the digits of a field; a word is the bytes of a text, the first lowest.
--
-- A byte is a number below 256, a slice a list. Unsigned arithmetic is written with its wrap; a sum
-- that cannot wrap is written plain. An `i64` is an integer whose bounds are checked where the
-- source checks them, and which wraps in days and years (Base/Ints), where it does not. A buffer
-- that is written to is its length and the front that is filled. The adapter and the sink are
-- records of operations that the pipeline takes, whose states it keeps. Loops over input are
-- recursion on it, or take fuel: `collect` has one round more than the body has bytes, `drain` one
-- more than the buffer holds, since each round takes a byte at least, the binary search of the
-- symbol filter as many as there are keys, and all are shown to be enough; a `u64` is written with
-- twenty digits at most. In the ring, accesses are taken in program order, which is what the fences
-- are there for; a run is that of one producer, without a restart.
-- Not modelled: system calls, sockets, TLS and the WebSocket handshake, the FIX receiver's
-- reconnecting loop, the other exchanges' decoders, the payloads of records, the other widths and
-- the extractors of jeed-convert, and configuration.
pub mod Base
pub mod Convert
pub mod Crypto
pub mod Fix
pub mod Shm
pub mod Tests
pub mod Wire
