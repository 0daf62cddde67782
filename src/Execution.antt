-- ===== src/Execution.antt =====
-- backend/app/execution: price impact and the paper executor.
pub mod Math
pub mod Paper
pub mod Idempotency
pub mod Live
