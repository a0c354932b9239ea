-- ===== src/Orders/Supply/Items.antt =====
-- What the statements on orders and their items do to the units that are held, if they succeed.
use soa_hw.Base.{ℕ, ◌+◌, ◌≡◌, true, arith, ◌==◌, if◌then◌else◌}
use soa_hw.Store.Schema.{Db, OrderItem}
use soa_hw.Store.Env.{Decimals}
use soa_hw.Store.Session.{ok}
use soa_hw.Store.Queries.{create_order_item}
use soa_hw.Orders.Supply.Held.{held, is_live, AllHaveOrder}

module _ {D : Type 0} where
  -- `n` more units of the product are held, by items of orders that were there before.
  pub record Added (pid n : ℕ) (db db' : Db D) : Type 0 where
    pub held_units : held pid db'.orders db'.order_items ≡ held pid db.orders db.order_items + n
    pub closed : AllHaveOrder db'.orders db'.order_items
    pub orders : db'.orders ≡ db.orders
    pub products : db'.products ≡ db.products
    pub promo_codes : db'.promo_codes ≡ db.promo_codes

  pub create_order_item-Added :
      (pid oid id n uuid now : ℕ) (dec : Decimals D) (price : D) (db db' : Db D) {a : OrderItem D}
      → is_live oid db.orders ≡ true
      → AllHaveOrder db.orders db.order_items
      → create_order_item dec oid id n price uuid now db ≡ ok (a, db')
      → Added pid (if id == pid then n else 0) db db'
  unfolding create_order_item held
  create_order_item-Added pid oid id n uuid now dec price db db' live closed h = ground arith
