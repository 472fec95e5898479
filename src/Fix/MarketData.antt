-- ===== src/Fix/MarketData.antt =====
-- crates/jeed-fix/src/market_data.rs: `35=W` and `35=X`, decoded into entries.
pub mod Entry
pub mod Parse
pub mod Entries
pub mod Quote
pub mod Quotes
