-- ===== src/Risk.antt =====
-- backend/app/risk: the veto engine with its rules and sizing, approvals, and per-user policy.
pub mod Model
pub mod TokenRules
pub mod MarketRules
pub mod PortfolioRules
pub mod Engine
pub mod FailClosed
pub mod RuleFacts
pub mod EntrySafety
pub mod Sizing
pub mod PerUser
pub mod Approval
