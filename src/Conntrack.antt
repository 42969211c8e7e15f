-- ===== src/Conntrack.antt =====
-- internal/conntrack: NAT-translated destinations from the kernel's connection-tracking table.
pub mod Types
pub mod Table
pub mod Resolver
pub mod Messages
pub mod Tests
