-- ===== src/Services.antt =====
-- backend/app/services, as far as it is no pipeline: the check of webhook addresses.
pub mod Webhooks
