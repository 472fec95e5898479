-- ===== src/Shm/Consumer.antt =====
-- crates/jeed-shm/src/consumer.rs: `attach` and `try_recv`, given what the mapping's loads return.
pub mod Bounds
pub mod Wraps
pub mod Accounts
use jeed.Base.{ℕ, zero, suc, ◌+◌, ◌-◌, ◌^◌, List, [], ◌∷◌, Bool, true, false, not, ◌||◌}
use jeed.Base.{◌==◌, ltb, leb, if◌then◌else◌, Result, ok, err, ◌>>=◌}
use jeed.Wire.Error.{WireError}
use jeed.Wire.Segment.{SegmentHeader, check, segment_len, header_len}
use Prim.Native.Nat.{max}

-- The errors of crates/jeed-shm/src/error.rs.
pub data ShmError : Type 0 where
  name_empty : ShmError
  name_too_long : (len : ℕ) → ShmError
  name_char : (byte : ℕ) → ShmError
  capacity : (requested : ℕ) → ShmError
  os : (call : List ℕ) (code : ℕ) → ShmError
  segment_too_small : (needed mapped : ℕ) → ShmError
  wire : WireError → ShmError

-- `u64::is_power_of_two`: one of the powers below `2 ^ k`.
abbrev pub power_below : ℕ → ℕ → Bool
power_below zero n = false
power_below (suc k) n = n == 2 ^ k || power_below k n

unfoldable pub is_power_of_two : ℕ → Bool
is_power_of_two n = power_below 64 n

pub record RingConsumer : Type 0 where
  pub capacity : ℕ
  pub mask : ℕ
  pub boot_id : ℕ
  pub next_seq : ℕ

-- `hdr.check()?`
abbrev pub from_wire : Result {0, 0} WireError Unit → Result {0, 0} ShmError Unit
from_wire (ok u) = ok u
from_wire (err e) = err (wire e)

-- From the power of two on.
unfoldable pub attach_sized : ℕ → SegmentHeader → Result ShmError RingConsumer
attach_sized mapped hdr =
    if not (is_power_of_two hdr.capacity)
    then err (ShmError.capacity hdr.capacity)
    else (if ltb mapped (segment_len hdr)
        then err (segment_too_small (segment_len hdr) mapped)
        else ok (record {
          capacity = hdr.capacity;
          mask = hdr.capacity - 1;
          boot_id = hdr.boot_id;
          next_seq = hdr.write_cursor;
        }))

-- `attach`, on a mapping of so many bytes that begins with this header.
unfoldable pub attach : ℕ → SegmentHeader → Result ShmError RingConsumer
attach mapped hdr =
    if ltb mapped header_len
    then err (segment_too_small header_len mapped)
    else (from_wire (check hdr) >>= (λ u. attach_sized mapped hdr))

pub data Recv : Type 0 where
  received empty : Recv
  lagged : (lost : ℕ) → Recv
  restarted : (boot_id : ℕ) → Recv

-- What one call loads: the header's `boot_id` and cursor, the slot's sequence before and after the
-- copy, and the cursor in `reseat`.
pub record Loads : Type 0 where
  pub boot_id : ℕ
  pub published : ℕ
  pub seq_before : ℕ
  pub seq_after : ℕ
  pub again : ℕ

unfoldable pub reseat : RingConsumer → ℕ → Recv × RingConsumer
reseat c published =
    let next = max (published - c.capacity) c.next_seq in
    (lagged (next - c.next_seq), record c { next_seq = next })

unfoldable pub try_recv : RingConsumer → Loads → Recv × RingConsumer
try_recv c l =
    if not (l.boot_id == c.boot_id)
    then (restarted l.boot_id, record c { boot_id = l.boot_id; next_seq = l.published })
    else (if leb l.published c.next_seq
        then (empty, c)
        else (if ltb c.capacity (l.published - c.next_seq)
            then (
              lagged (l.published - c.capacity - c.next_seq),
              record c { next_seq = l.published - c.capacity },
            )
            else (if not (l.seq_before == c.next_seq) || not (l.seq_after == c.next_seq)
                then reseat c l.again
                else (received, record c { next_seq = c.next_seq + 1 }))))

-- Calls one after another, and their answers.
unfoldable pub try_recv_all : RingConsumer → List Loads → List Recv × RingConsumer
try_recv_all c [] = ([], c)
try_recv_all c (l ∷ ls) =
    let (r, c') = try_recv c l in let (rs, c'') = try_recv_all c' ls in (r ∷ rs, c'')
