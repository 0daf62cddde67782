-- ===== src/Wallets.antt =====
-- backend/app/wallets: the policy that every wallet enforces before it signs.
pub mod Policy
pub mod Submission
