-- ===== src/Tests.antt =====
-- Runs on concrete inputs, and the theorems at inputs where their hypotheses hold.
mod Emit
mod Fix
mod Quotes
mod Recv
mod Time
mod Shm
mod Wire
mod Consumer
mod Convert
mod Crypto
