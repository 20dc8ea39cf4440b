-- ===== src/Store/Auth.antt =====
-- internal/store/auth.go: the authorization of a signing request.
pub mod Bearer
pub mod Lag
pub mod Decide
pub mod Authorize
pub mod Sound
pub mod Fresh
pub mod Safety
pub mod Tests
