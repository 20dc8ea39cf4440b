-- ===== src/Store.antt =====
-- internal/store: the clearinghouse's transactions over the database.
pub mod Amount
pub mod Summary
pub mod Ledger
pub mod Manage
pub mod Position
pub mod Rematch
pub mod Ingest
pub mod Settlements
pub mod Idempotency
pub mod Auth
pub mod Calls
