-- ===== src/MarketData.antt =====
-- backend/app/market_data/registry.py: asking several providers in order, with a circuit breaker each,
-- and merging what they answer. Audit records and the provenance of fields are left out.
pub mod Health
pub mod Merge
pub mod Registry
pub mod Circuit
pub mod Failover
pub mod Fills
pub mod Filling
