-- ===== src/Tagcount.antt =====
-- internal/tagcount: the exporter's bounded queue and its worker.
pub mod Exporter
pub mod Tests
