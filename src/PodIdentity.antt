-- ===== src/PodIdentity.antt =====
-- internal/podidentity: the Pods at the ends of an observation.
pub mod Cache
pub mod Enrichment
pub mod Indexers
pub mod Tests
