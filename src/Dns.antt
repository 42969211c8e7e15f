-- ===== src/Dns.antt =====
-- internal/dns: DNS datagrams and the correlation of queries with their responses.
pub mod Types
pub mod Message
pub mod Transactions
pub mod Correlator
pub mod Tests
