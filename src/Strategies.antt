-- ===== src/Strategies.antt =====
-- backend/app/strategies: how a market is scored, which gates an entry has to pass, and which strategy
-- runs. `log10` is an argument wherever a score uses it.
pub mod Scales
pub mod Signal
pub mod Traction
pub mod Trend
pub mod Established
pub mod Gates
pub mod Qualified
pub mod Registry
pub mod Selection
pub mod Versions
pub mod Launches
