-- ===== src/Orders.antt =====
-- internal/service/orders.go: `OrderService`. `env` stands where the source passes `ctx`.
pub mod Discount
pub mod Types
pub mod Loops
pub mod Service
pub mod Supply
pub mod Reads
pub mod Errors
pub mod Promo
pub mod Conserve
pub mod History
