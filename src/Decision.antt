-- ===== src/Decision.antt =====
-- backend/app/services/decision.py: from a market snapshot to an approved trade, through the strategy,
-- the risk engine, the AI and the venues. Reasons, texts and snapshots of settings are left out.
pub mod Model
pub mod Cases
pub mod Consulting
pub mod Evaluating
pub mod Overriding
pub mod Opinion
pub mod Settled
pub mod Bought
pub mod Vetoed
