-- ===== src/Orders/Conserve/Create/Tables.antt =====
-- The tables and the units of one product at each statement of `Create` in internal/service/orders.go.
use soa_hw.Base.{ℕ, true, ◌≡◌, ◌≢◌, refl, ◌+◌, ◌∙◌, none, ◌∷◌, arith, Option, ap}
use soa_hw.Base.Rows.{find_row, first_row}
use soa_hw.Store.Schema.{Db, Order, created, OperationType, UserOperation}
use soa_hw.Store.Env.{Decimals}
use soa_hw.Store.Session.{Session, Error, Result, ok, err, no_rows}
use soa_hw.Store.Session.Laws.{Post, Post-pure, Post-raise}
use soa_hw.Store.Queries.{
  create_order, create_user_operation, get_active_order_by_user_id, is_active_of,
}
use soa_hw.Store.Queries.Checks.{order_id}
use soa_hw.Orders.Types.{CreateOrderInput}
use soa_hw.Orders.Service.{none_active}
use soa_hw.Orders.Promo.{Claims, claimed}
use soa_hw.Orders.Supply.{Accounts}
use soa_hw.Orders.Supply.Stock.{IsListed, stock_at}
use soa_hw.Orders.Supply.Held.{held, AllHaveOrder, is_live, held-new_order, AllHaveOrder-new_order}
use soa_hw.Orders.Supply.Moves.{Taken}
use soa_hw.Orders.Supply.Items.{Added}

module _ {D : Type 0} where
  -- The order that a creation adds.
  pub record IsNewOrder (user : ℕ) (promo : Option ℕ) (db : Db D) (o : Order D) : Type 0 where
    pub fresh : find_row order_id o.id db.orders ≡ none
    pub is_created : o.status ≡ created
    pub owner : o.user_id ≡ user
    pub code : o.promo_code_id ≡ promo

  pub create_order-found :
      (dec : Decimals D) (user : ℕ) (promo : Option ℕ) (total discount : D) (uuid now : ℕ)
      (db db' : Db D) {o : Order D}
      → create_order dec user promo total discount uuid now db ≡ ok (o, db')
      → IsNewOrder user promo db o
        × (db'.orders ≡ o ∷ db.orders)
        × (db'.products ≡ db.products)
        × (db'.order_items ≡ db.order_items)
        × (db'.promo_codes ≡ db.promo_codes)
  unfolding create_order
  create_order-found dec user promo total discount uuid now db db' h = ground arith

  -- The tables after a creation, and the units of one product.
  pub record Creates (pid : ℕ) (i : CreateOrderInput) (db db' : Db D) : Type 0 where
    pub order : Order D
    pub n : ℕ
    pub promo : Option ℕ
    pub is_new : IsNewOrder i.user_id promo db order
    pub none_before : first_row (is_active_of i.user_id) db.orders ≡ none
    pub stock : stock_at pid db'.products + n ≡ stock_at pid db.products
    pub listed : IsListed pid db'.products
    pub orders : db'.orders ≡ order ∷ db.orders
    pub held_units :
        held pid db'.orders db'.order_items ≡ held pid (order ∷ db.orders) db.order_items + n
    pub closed : AllHaveOrder db'.orders db'.order_items
    pub promo_codes : db'.promo_codes ≡ claimed promo db.promo_codes

  -- What holds once the order is inserted, before its items are.
  pub record Inserted (pid n : ℕ) (i : CreateOrderInput) (o : Order D) (db db' : Db D)
      : Type 0 where
    pub promo : Option ℕ
    pub is_new : IsNewOrder i.user_id promo db o
    pub stock : stock_at pid db'.products + n ≡ stock_at pid db.products
    pub listed : IsListed pid db'.products
    pub orders : db'.orders ≡ o ∷ db.orders
    pub order_items : db'.order_items ≡ db.order_items
    pub promo_codes : db'.promo_codes ≡ claimed promo db.promo_codes

  pub Inserted-steps :
      (pid n : ℕ) (i : CreateOrderInput) (promo : Option ℕ) (o : Order D) (a b c d : Db D)
      → Taken pid n a b
      → Claims promo b c
      → IsNewOrder i.user_id promo c o
        × (d.orders ≡ o ∷ c.orders)
        × (d.products ≡ c.products)
        × (d.order_items ≡ c.order_items)
        × (d.promo_codes ≡ c.promo_codes)
      → Inserted pid n i o a d
  Inserted-steps pid n i promo o a b c d t f h = record {
    promo = promo;
    is_new = record {
      fresh = rw (← t.rest.orders, ← f.orders) h.0.fresh;
      is_created = h.0.is_created;
      owner = h.0.owner;
      code = h.0.code;
    };
    stock = rw (h.2 ∙ f.products) t.stock;
    listed = rw (h.2 ∙ f.products) t.listed;
    orders = h.1 ∙ ap (λ os. o ∷ os) (f.orders ∙ t.rest.orders);
    order_items = h.3 ∙ f.order_items ∙ t.rest.order_items;
    promo_codes = h.4 ∙ f.promo_codes ∙ ap (claimed promo) t.rest.promo_codes;
  }

  pub Inserted-is_live :
      (pid n : ℕ) (i : CreateOrderInput) (o : Order D) (db db' : Db D)
      → Inserted pid n i o db db'
      → is_live o.id db'.orders ≡ true
  unfolding find_row
  Inserted-is_live pid n i o db db' x = rw x.orders (ground (arith, x.is_new.is_created))

  pub Inserted-closed :
      (pid n : ℕ) (i : CreateOrderInput) (o : Order D) (db db' : Db D)
      → Inserted pid n i o db db'
      → AllHaveOrder db.orders db.order_items
      → AllHaveOrder db'.orders db'.order_items
  Inserted-closed pid n i o db db' x h =
      rw (x.orders, x.order_items) (AllHaveOrder-new_order o db.orders db.order_items h)

  -- The items complete it, and the operation record touches none of these tables.
  pub Creates-steps :
      (pid n : ℕ) (i : CreateOrderInput) (o : Order D) (a d e f : Db D)
      → first_row (is_active_of i.user_id) a.orders ≡ none
      → Inserted pid n i o a d
      → Added pid n d e
      → (f.orders ≡ e.orders)
        × (f.products ≡ e.products)
        × (f.order_items ≡ e.order_items)
        × (f.promo_codes ≡ e.promo_codes)
      → Creates pid i a f
  Creates-steps pid n i o a d e f none_before x y h = record {
    order = o;
    n = n;
    promo = x.promo;
    is_new = x.is_new;
    none_before = none_before;
    stock = rw (h.1 ∙ y.products) x.stock;
    listed = rw (h.1 ∙ y.products) x.listed;
    orders = h.0 ∙ y.orders ∙ x.orders;
    held_units = rw (h.0, h.2) (y.held_units ∙ rw (x.orders, x.order_items));
    closed = rw (h.0, h.2) y.closed;
    promo_codes = h.3 ∙ y.promo_codes ∙ x.promo_codes;
  }

  -- Units leave the stock as the new order takes them.
  pub Creates-Accounts :
      (pid n : ℕ) (i : CreateOrderInput) (db db' : Db D)
      → Accounts pid n db
      → Creates pid i db db'
      → Accounts pid n db'
  Creates-Accounts pid n i db db' acc c = record {
    units = omega (
      arith,
      c.stock,
      c.held_units,
      acc.units,
      held-new_order pid c.order db.orders db.order_items c.is_new.fresh acc.closed,
    );
    listed = c.listed;
    closed = c.closed;
  }

  pub get_active_order-none :
      (user uuid now : ℕ) (db : Db D)
      → get_active_order_by_user_id user uuid now db ≡ err no_rows
      → first_row (is_active_of user) db.orders ≡ none
  unfolding get_active_order_by_user_id
  get_active_order-none user uuid now db h = ground arith

  pub create_user_operation-found :
      (user : ℕ) (t : OperationType) (uuid now : ℕ) (db db' : Db D) {o : UserOperation}
      → create_user_operation user t uuid now db ≡ ok (o, db')
      → (db'.orders ≡ db.orders)
        × (db'.products ≡ db.products)
        × (db'.order_items ≡ db.order_items)
        × (db'.promo_codes ≡ db.promo_codes)
  unfolding create_user_operation
  create_user_operation-found user t uuid now db db' h = ground arith

  -- `Create` goes on only where there is no active order.
  abbrev pub HasNone : ℕ → Db D → Result D (Order D) → Session D → Type 0
  HasNone user db (ok o) s' = Unit
  HasNone user db (err no_rows) s' = (s'.db ≡ db) × (first_row (is_active_of user) db.orders ≡ none)
  HasNone user db (err _) s' = Unit

  pub HasNone-other :
      (user : ℕ) (db : Db D) (e : Error D) (s : Session D) → e ≢ no_rows → HasNone user db (err e) s
  HasNone-other user db no_rows s h = absurd (h refl)
  HasNone-other user db _ s h = tt

  pub none_active-HasNone :
      (user : ℕ) (db : Db D) (r : Result D (Order D)) (s : Session D)
      → HasNone user db r s
      → Post
          (λ _ s'. (s'.db ≡ db) × (first_row (is_active_of user) db.orders ≡ none))
          (none_active r s)
  unfolding none_active
  none_active-HasNone user db (ok o) s h = Post-raise _ _ s
  none_active-HasNone user db (err no_rows) s h = Post-pure _ tt s h
  none_active-HasNone user db (err e) s h = Post-raise _ _ s
