-- ===== src/Middleware.antt =====
-- internal/middleware: what stands between the router and the handlers.
pub mod Http
pub mod Auth
pub mod Logging
