-- ===== src/Domain.antt =====
-- backend/app/domain: the market model and the trade-shaped value objects.
pub mod Market
pub mod History
pub mod Windows
pub mod Trade
