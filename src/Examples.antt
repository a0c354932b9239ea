-- ===== src/Examples.antt =====
-- Concrete data, runs of the methods, and the theorems at concrete inputs.
mod Data
mod Orders
mod Products
mod Answers
mod Promos
mod Catalog
mod Auth
mod Tokens
mod Server
mod Cancel
mod Settings
