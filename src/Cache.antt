-- ===== src/Cache.antt =====
-- internal/infrastructure/cache: the circuit breaker and the caches.
pub mod Breaker
pub mod Hash
pub mod Table
pub mod Local
pub mod MultiLevel
pub mod Redis
