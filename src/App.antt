-- ===== src/App.antt =====
-- internal/app: what the event loop keeps between the reader and the pipelines.
pub mod Progress
pub mod Resolution
pub mod Tests
