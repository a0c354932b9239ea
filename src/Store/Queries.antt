-- ===== src/Store/Queries.antt =====
-- The queries of internal/db/queries that the services call, with the constraints of
-- internal/migrations/000001_init.up.sql that a write can break.
pub mod Checks
pub mod Products
pub mod Catalog
pub mod Promos
pub mod Orders
pub mod Operations
pub mod Users
unfoldable pub use Products.*
unfoldable pub use Catalog.*
unfoldable pub use Promos.*
unfoldable pub use Orders.*
unfoldable pub use Operations.*
unfoldable pub use Users.*
