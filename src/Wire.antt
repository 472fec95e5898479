-- ===== src/Wire.antt =====
-- crates/jeed-wire: the record's header and the types that it is made of.
pub mod Error
pub mod Types
pub mod Header
pub mod Symbol
pub mod Segment
pub mod Valid
