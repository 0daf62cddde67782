-- ===== src/Portfolio.antt =====
-- backend/app/portfolio: balances and positions, exit rules, operator switches and spendable cash.
pub mod Controls
pub mod Position
pub mod State
pub mod Mutations
pub mod Soundness
pub mod Daily
pub mod Closing
pub mod Exits
pub mod LiveCash
