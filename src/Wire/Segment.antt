-- ===== src/Wire/Segment.antt =====
-- crates/jeed-wire/src/segment.rs: the header of a ring segment. A `usize` has 64 bits.
use jeed.Base.{ℕ, ◌+◌, ◌*◌, ◌%◌, ◌^◌, ◌==◌, if◌then◌else◌, Result, ok, err, not}
use jeed.Wire.Error.{WireError}

-- `b"FE_WIRE1"`, the last byte the highest.
abbrev pub segment_magic : ℕ
segment_magic = 3550334356203455814

abbrev pub wire_format_version : ℕ
wire_format_version = 4

abbrev pub record_len : ℕ
record_len = 640

abbrev pub header_len : ℕ
header_len = 128

pub record SegmentHeader : Type 0 where
  pub magic : ℕ
  pub format_version : ℕ
  pub record_size : ℕ
  pub capacity : ℕ
  pub boot_id : ℕ
  pub write_cursor : ℕ
  pub drop_counter : ℕ

abbrev pub new_segment : ℕ → ℕ → SegmentHeader
new_segment capacity boot_id = record {
  magic = segment_magic;
  format_version = wire_format_version;
  record_size = record_len;
  capacity = capacity;
  boot_id = boot_id;
  write_cursor = 0;
  drop_counter = 0;
}

unfoldable pub check : SegmentHeader → Result {0, 0} WireError Unit
check h =
    if not (h.magic == segment_magic)
    then err (WireError.magic h.magic)
    else (if not (h.format_version == wire_format_version)
        then err (WireError.format_version wire_format_version h.format_version)
        else (if not (h.record_size == record_len)
            then err (WireError.record_size record_len h.record_size)
            else (if h.capacity == 0 then err WireError.capacity else ok tt)))

-- The product and the sum wrap, in a build without overflow checks.
unfoldable pub segment_len : SegmentHeader → ℕ
segment_len h = (header_len + h.capacity * record_len % 2 ^ 64) % 2 ^ 64
