-- ===== src/Shm.antt =====
-- crates/jeed-shm: the shared-memory ring.
pub mod Ring
pub mod Race
pub mod Consumer
