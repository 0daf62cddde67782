-- ===== src/Discovery.antt =====
-- backend/app/discovery: the registry of tokens, their monitoring and their ranking.
pub mod Registry
pub mod Monitoring
pub mod Ranking
