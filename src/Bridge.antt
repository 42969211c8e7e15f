-- ===== src/Bridge.antt =====
-- internal/bridge: what the node bridge accepts.
pub mod Validation
pub mod Tests
