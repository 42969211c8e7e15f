-- ===== src/L7.antt =====
-- internal/l7: HTTP/1 and HTTP/2 requests matched with their responses.
pub mod Types
pub mod Text
pub mod Http1
pub mod Http2
pub mod Fields
pub mod Reports
pub mod State
pub mod Exchange
pub mod Streams
pub mod Correlator
pub mod Invariant
pub mod Tests
