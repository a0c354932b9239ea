-- ===== src/Orders/Conserve.antt =====
-- No method of `OrderService` creates or loses units of a product.
pub mod Cancel
pub mod Create
pub mod Update
