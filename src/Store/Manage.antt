-- ===== src/Store/Manage.antt =====
-- internal/store/manage.go: grants, allocations, API keys and their statuses.
pub mod Grants
pub mod Allocations
pub mod Keys
pub mod Status
pub mod Sound
pub mod Final
pub mod Tests
