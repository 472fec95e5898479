-- ===== src/Convert.antt =====
-- crates/jeed-convert: numbers out of text, eight bytes at a time.
pub mod Error
pub mod Check
pub mod Bcd
pub mod Checked
pub mod Unsigned
