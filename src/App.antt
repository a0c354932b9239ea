-- ===== src/App.antt =====
-- internal/app/app.go: the router, what stands before it, and the endpoints behind it.
pub mod Routes
pub mod Endpoints
pub mod Server
pub mod Elsewhere
pub mod Turns
pub mod Shop
pub mod Door
pub mod Buyers
pub mod Log
pub mod Book
pub mod Canceling
