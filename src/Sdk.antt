-- ===== src/Sdk.antt =====
-- internal/sdk: what a client remembers between runs, and the order in which it tries sources.
pub mod State
pub mod Ranking
