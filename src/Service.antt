-- ===== src/Service.antt =====
-- internal/application/service: the application services.
pub mod Key
pub mod Filter
pub mod Race
pub mod Batch
