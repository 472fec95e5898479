-- ===== src/Fix/Session.antt =====
-- crates/jeed-fix/src/session.rs: sequence numbers and liveness of one inbound session.
-- The counters are u64; their sums keep the wrap of a release build.
pub mod Counters
use jeed.Base.{ℕ, ◌+◌, ◌-◌, ◌*◌, ◌%◌, ◌^◌, Bool, true, false, ◌||◌, Option, none, some, ltb, ◌==◌}
use jeed.Base.{if◌then◌else◌}
use jeed.Fix.MsgType.{MsgType, logon, logout, sequence_reset}
use jeed.Fix.Value.{FixText}

abbrev pub add_u64 : ℕ → ℕ → ℕ
add_u64 a b = (a + b) % 2 ^ 64

pub data SeqVerdict : Type 0 where
  in_order : SeqVerdict
  gap : ℕ → ℕ → ℕ → SeqVerdict
  duplicate : ℕ → ℕ → SeqVerdict
  regression : ℕ → ℕ → SeqVerdict

abbrev pub is_in_order : SeqVerdict → Bool
is_in_order in_order = true
is_in_order _ = false

-- `received - 1`: a gap has `received` above `expected`, so this does not go below 0.
unfoldable pub resend_range : SeqVerdict → Option (ℕ × ℕ)
resend_range (gap expected received missing) = some (expected, received - 1)
resend_range _ = none

pub record SessionState : Type 0 where
  pub next_expected : ℕ
  pub last_recv_ns : ℕ
  pub heartbeat_interval_ns : ℕ
  pub observed : ℕ
  pub gaps : ℕ
  pub lost : ℕ
  pub duplicates : ℕ
  pub regressions : ℕ
  pub logged_on : Bool

abbrev pub new : SessionState
new = record {
  next_expected = 1;
  last_recv_ns = 0;
  heartbeat_interval_ns = 0;
  observed = 0;
  gaps = 0;
  lost = 0;
  duplicates = 0;
  regressions = 0;
  logged_on = false;
}

-- The tail of `observe`, on the state that has counted the message.
unfoldable pub judge : SessionState → ℕ → Bool → SessionState × SeqVerdict
judge s seq poss_dup =
    let expected = s.next_expected in
    if seq == expected
    then (record s { next_expected = add_u64 seq 1 }, in_order)
    else (if ltb expected seq
        then (
          record s {
            next_expected = add_u64 seq 1;
            gaps = add_u64 s.gaps 1;
            lost = add_u64 s.lost (seq - expected);
          },
          gap expected seq (seq - expected),
        )
        else (if poss_dup
            then (record s { duplicates = add_u64 s.duplicates 1 }, duplicate expected seq)
            else (record s { regressions = add_u64 s.regressions 1 }, regression expected seq)))

unfoldable pub observe : SessionState → ℕ → Bool → ℕ → SessionState × SeqVerdict
unfolding judge
observe s seq poss_dup recv_ns =
    judge (record s { observed = add_u64 s.observed 1; last_recv_ns = recv_ns }) seq poss_dup

-- The fields of `AdminMessage`.
pub record AdminMessage : Type 0 where
  pub msg_type : MsgType
  pub msg_seq_num : ℕ
  pub sending_time : ℕ
  pub poss_dup : Bool
  pub gap_fill : Bool
  pub heartbeat_secs : Option ℕ
  pub new_seq_no : Option ℕ
  pub begin_seq_no : Option ℕ
  pub end_seq_no : Option ℕ
  pub test_req_id : FixText

abbrev pub apply_logon : Option ℕ → SessionState → SessionState
apply_logon (some secs) s = record s {
  logged_on = true;
  heartbeat_interval_ns = secs * 1_000_000_000 % 2 ^ 64;
}
apply_logon none s = record s { logged_on = true }

abbrev pub apply_reset : Option ℕ → SessionState → SessionState
apply_reset (some new_seq) s = record s { next_expected = new_seq }
apply_reset none s = s

abbrev pub apply_type : MsgType → Option ℕ → Option ℕ → SessionState → SessionState
apply_type logon secs new_seq s = apply_logon secs s
apply_type logout secs new_seq s = record s { logged_on = false }
apply_type sequence_reset secs new_seq s = apply_reset new_seq s
apply_type _ secs new_seq s = s

-- A `u32` of seconds times 10 ^ 9 fits 64 bits.
unfoldable pub apply_admin : AdminMessage → SessionState → SessionState
apply_admin m s = apply_type m.msg_type m.heartbeat_secs m.new_seq_no s

unfoldable pub reset_to : ℕ → SessionState → SessionState
reset_to seq s = record s { next_expected = seq }

-- `saturating_sub` is the truncated difference.
unfoldable pub silence_ns : SessionState → ℕ → ℕ
silence_ns s now = now - s.last_recv_ns

abbrev pub max_one : ℕ → ℕ
max_one factor = if factor == 0 then 1 else factor

unfoldable pub is_silent : SessionState → ℕ → ℕ → Bool
unfolding silence_ns
is_silent s now factor =
    if s.heartbeat_interval_ns == 0 || s.last_recv_ns == 0
    then false
    else ltb (s.heartbeat_interval_ns * max_one factor % 2 ^ 64) (silence_ns s now)
