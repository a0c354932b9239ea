-- ===== src/Handler.antt =====
-- internal/handler: requests checked, passed to the services, and answered.
pub mod Validation
pub mod Response
pub mod Orders
pub mod Products
pub mod Auth
pub mod Promos
pub mod BadRequest
