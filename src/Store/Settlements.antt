-- ===== src/Store/Settlements.antt =====
-- internal/store/settlements.go: the escrow ledger that follows the chain.
pub mod Events
pub mod Bootstrap
pub mod Settle
pub mod Apply
pub mod Rewind
pub mod Sound
pub mod Order
pub mod Tests
