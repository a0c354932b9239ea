-- ===== src/Orders/Supply.antt =====
-- Where the units of a product are: on stock, or held by the items of orders that are not canceled.
pub mod Held
pub mod Stock
pub mod Moves
pub mod Items
pub mod Loops
use soa_hw.Base.{ℕ, ◌+◌, ◌≡◌}
use soa_hw.Store.Schema.{Db}
use Held.{held, AllHaveOrder}
use Stock.{stock_at, IsListed}

-- All units of the product that the database accounts for.
abbrev pub supply : {D : Type 0} → ℕ → Db D → ℕ
supply pid db = stock_at pid db.products + held pid db.orders db.order_items

-- The product is listed, its units come to `n`, and every item belongs to an order.
pub record Accounts {D : Type 0} (pid n : ℕ) (db : Db D) : Type 0 where
  pub units : supply pid db ≡ n
  pub listed : IsListed pid db.products
  pub closed : AllHaveOrder db.orders db.order_items
