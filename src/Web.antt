-- ===== src/Web.antt =====
-- What stands in front of the services: pkg/errors, internal/interfaces/http with
-- internal/interfaces/middleware, and internal/interfaces/grpc.
pub mod Errors
pub mod Reply
pub mod Limiter
pub mod Middleware
pub mod Handlers
pub mod Router
pub mod Observe
