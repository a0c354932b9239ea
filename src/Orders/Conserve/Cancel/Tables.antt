-- ===== src/Orders/Conserve/Cancel/Tables.antt =====
-- The tables and the units of one product at each statement of `Cancel` in internal/service/orders.go.
use soa_hw.Base.{ℕ, true, ◌≡◌, refl, ◌+◌, ◌∙◌, some, List, arith, Option, ap}
use soa_hw.Base.Rows.{find_row, filter_rows, update_rows}
use soa_hw.Store.Schema.{Db, Order, OrderItem, canceled}
use soa_hw.Store.Session.{ok}
use soa_hw.Store.Queries.{get_order_items, update_order_status, is_active, is_item_of, with_status}
use soa_hw.Store.Queries.Orders.{order_by_id}
use soa_hw.Store.Queries.Checks.{order_id}
use soa_hw.Orders.Promo.{refunded, Refunds}
use soa_hw.Orders.Supply.{Accounts}
use soa_hw.Orders.Supply.Stock.{IsListed, stock_at}
use soa_hw.Orders.Supply.Held.{
  ordered, is_live, ordered-order_by_id, held-cancel, AllHaveOrder-update_rows,
}
use soa_hw.Orders.Supply.Moves.{Returned}

module _ {D : Type 0} where
  -- The tables after a cancelation, and the units of one product.
  pub record Cancels (pid id : ℕ) (promo : Option ℕ) (db db' : Db D) : Type 0 where
    pub now : ℕ
    pub stock :
        stock_at pid db'.products
        ≡ stock_at pid db.products + ordered pid (filter_rows (is_item_of id) db.order_items)
    pub listed : IsListed pid db'.products
    pub orders : db'.orders ≡ update_rows order_id id (with_status now canceled) db.orders
    pub order_items : db'.order_items ≡ db.order_items
    pub promo_codes : db'.promo_codes ≡ refunded promo db.promo_codes

  pub get_order_items-found :
      (id uuid now : ℕ) (db db' : Db D) {is : List (OrderItem D)}
      → get_order_items id uuid now db ≡ ok (is, db')
      → (db' ≡ db) × (is ≡ order_by_id (filter_rows (is_item_of id) db.order_items))
  unfolding get_order_items
  get_order_items-found id uuid now db db' h = ground arith

  pub update_order_status-found :
      (id uuid now : ℕ) (db db' : Db D) {o : Order D}
      → update_order_status id canceled uuid now db ≡ ok (o, db')
      → (db'.orders ≡ update_rows order_id id (with_status now canceled) db.orders)
        × (db'.products ≡ db.products)
        × (db'.order_items ≡ db.order_items)
        × (db'.promo_codes ≡ db.promo_codes)
  unfolding update_order_status
  update_order_status-found id uuid now db db' h = ground arith

  -- The four statements one after the other.
  pub Cancels-steps :
      (pid id now : ℕ) (promo : Option ℕ) (a b c d : Db D) (is : List (OrderItem D))
      → is ≡ order_by_id (filter_rows (is_item_of id) a.order_items)
      → Returned pid (ordered pid is) a b
      → Refunds promo b c
      → (d.orders ≡ update_rows order_id id (with_status now canceled) c.orders)
        × (d.products ≡ c.products)
        × (d.order_items ≡ c.order_items)
        × (d.promo_codes ≡ c.promo_codes)
      → Cancels pid id promo a d
  Cancels-steps pid id now promo a b c d is e r f h = record {
    now = now;
    stock =
        ap (stock_at pid) (h.1 ∙ f.products)
        ∙ r.stock
        ∙ ap (λ n. stock_at pid a.products + n) (ap (ordered pid) e ∙ ordered-order_by_id pid _);
    listed = rw (h.1 ∙ f.products) r.listed;
    orders =
        h.0 ∙ ap (update_rows order_id id (with_status now canceled)) (f.orders ∙ r.rest.orders);
    order_items = h.2 ∙ f.order_items ∙ r.rest.order_items;
    promo_codes = h.3 ∙ f.promo_codes ∙ ap (refunded promo) r.rest.promo_codes;
  }

  pub is_active-is_live :
      (id : ℕ) (os : List (Order D)) {o : Order D}
      → find_row order_id id os ≡ some o
      → is_active o.status ≡ true
      → is_live id os ≡ true
  is_active-is_live id os e act = ground arith

  -- What the stock gains is what the order no longer holds.
  pub Cancels-Accounts :
      (pid id n : ℕ) (promo : Option ℕ) (db db' : Db D)
      → is_live id db.orders ≡ true
      → Accounts pid n db
      → Cancels pid id promo db db'
      → Accounts pid n db'
  Cancels-Accounts pid id n promo db db' live acc c = record {
    units =
        rw (c.orders, c.order_items)
          (omega
            (arith, c.stock, acc.units, held-cancel pid id c.now db.orders db.order_items live));
    listed = c.listed;
    closed =
        rw (c.orders, c.order_items)
          (AllHaveOrder-update_rows id _ db.orders db.order_items (λ o. refl) acc.closed);
  }
