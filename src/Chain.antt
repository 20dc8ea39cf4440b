-- ===== src/Chain.antt =====
-- internal/chain/listener.go: the listener that follows the TicketBroker contract. The Ethereum
-- node, ABI decoding and Keccak-256 are parameters.
pub mod Redemptions
pub mod Logs
pub mod Config
pub mod Polling
pub mod Opening
pub mod Batch
pub mod Step
pub mod Tests
