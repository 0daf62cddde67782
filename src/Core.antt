-- ===== src/Core.antt =====
-- backend/app/core: the enums of types.py and the exceptions of errors.py.
pub mod Errors
pub mod Types
pub mod Outcomes
