-- ===== src/Orders/Conserve/Update/Tables.antt =====
-- The tables and the units of one product at each statement of `Update` in internal/service/orders.go.
use soa_hw.Base.{
  ℕ, true, not, ◌≡◌, refl, ◌+◌, ◌∙◌, some, none, List, arith, Option, ap, ◌⊎◌, inl, inr,
}
use soa_hw.Base.Rows.{find_row, filter_rows, update_rows}
use soa_hw.Store.Schema.{Db, Order, OrderItem}
use soa_hw.Store.Env.{Decimals}
use soa_hw.Store.Session.{ok}
use soa_hw.Store.Queries.{update_order_amounts, delete_order_items, is_item_of, with_amounts}
use soa_hw.Store.Queries.Orders.{order_by_id}
use soa_hw.Store.Queries.Checks.{order_id, one, amount, >>=-passed}
use soa_hw.Orders.Service.{is_created}
use soa_hw.Orders.Promo.{refunded, Reprices}
use soa_hw.Orders.Supply.{Accounts}
use soa_hw.Orders.Supply.Stock.{IsListed, stock_at}
use soa_hw.Orders.Supply.Held.{
  held, ordered, AllHaveOrder, is_live, ordered-order_by_id, held-delete, held-update_rows,
  AllHaveOrder-update_rows, AllHaveOrder-filter_rows, is_live-update_rows,
}
use soa_hw.Orders.Supply.Moves.{Taken, Returned}
use soa_hw.Orders.Supply.Items.{Added}

module _ {D : Type 0} where
  -- The items of the other orders.
  abbrev pub others : ℕ → List (OrderItem D) → List (OrderItem D)
  others id = filter_rows (λ i. not (is_item_of id i))

  -- The tables after an update, and the units of one product.
  pub record Updates (pid id : ℕ) (promo : Option ℕ) (db db' : Db D) : Type 0 where
    pub n : ℕ
    pub now : ℕ
    pub total : D
    pub discount : D
    pub promo' : Option ℕ
    pub stock :
        stock_at pid db'.products + n
        ≡ stock_at pid db.products + ordered pid (filter_rows (is_item_of id) db.order_items)
    pub listed : IsListed pid db'.products
    pub orders :
        db'.orders ≡ update_rows order_id id (with_amounts now total discount promo') db.orders
    pub held_units :
        held pid db'.orders db'.order_items ≡ held pid db'.orders (others id db.order_items) + n
    pub closed : AllHaveOrder db'.orders db'.order_items
    pub promo_codes :
        ((promo' ≡ promo) × (db'.promo_codes ≡ db.promo_codes))
        ⊎ ((promo' ≡ none) × (db'.promo_codes ≡ refunded promo db.promo_codes))

  -- Until the new items are inserted.
  pub record Emptied (pid n id : ℕ) (promo : Option ℕ) (db db' : Db D) : Type 0 where
    pub now : ℕ
    pub total : D
    pub discount : D
    pub promo' : Option ℕ
    pub stock :
        stock_at pid db'.products + n
        ≡ stock_at pid db.products + ordered pid (filter_rows (is_item_of id) db.order_items)
    pub listed : IsListed pid db'.products
    pub orders :
        db'.orders ≡ update_rows order_id id (with_amounts now total discount promo') db.orders
    pub order_items : db'.order_items ≡ others id db.order_items
    pub promo_codes :
        ((promo' ≡ promo) × (db'.promo_codes ≡ db.promo_codes))
        ⊎ ((promo' ≡ none) × (db'.promo_codes ≡ refunded promo db.promo_codes))

  pub delete_order_items-found :
      (id uuid now : ℕ) (db db' : Db D) {a : Unit {0}}
      → delete_order_items id uuid now db ≡ ok (a, db')
      → (db'.order_items ≡ others id db.order_items)
        × (db'.products ≡ db.products)
        × (db'.orders ≡ db.orders)
        × (db'.promo_codes ≡ db.promo_codes)
  unfolding delete_order_items
  delete_order_items-found id uuid now db db' h = ground arith

  pub update_order_amounts-found :
      (dec : Decimals D) (id : ℕ) (total discount : D) (promo : Option ℕ) (uuid now : ℕ)
      (db db' : Db D) {o : Order D}
      → update_order_amounts dec id total discount promo uuid now db ≡ ok (o, db')
      → (total' : D) × (discount' : D) × (db'.orders
          ≡ update_rows order_id id (with_amounts now total' discount' promo) db.orders)
        × (db'.products ≡ db.products)
        × (db'.order_items ≡ db.order_items)
        × (db'.promo_codes ≡ db.promo_codes)
  unfolding update_order_amounts
  update_order_amounts-found dec id total discount promo uuid now db db' h =
      let (o, found, h1) = >>=-passed (one (find_row order_id id db.orders)) _ h in
      let (total', fits, h2) = >>=-passed (amount dec total) _ h1 in
      let (discount', fits', h3) = >>=-passed (amount dec discount) _ h2 in
      (total', discount', ground arith, ground arith, ground arith, ground arith)

  pub Reprices-tables :
      (promo promo' : Option ℕ) (c d : Db D)
      → Reprices promo promo' c d
      → (d.products ≡ c.products)
        × (d.orders ≡ c.orders)
        × (d.order_items ≡ c.order_items)
        × (((promo' ≡ promo) × (d.promo_codes ≡ c.promo_codes))
            ⊎ ((promo' ≡ none) × (d.promo_codes ≡ refunded promo c.promo_codes)))
  Reprices-tables promo promo' c d (inl (e, k)) =
      (k.products, k.orders, k.order_items, inl (e, k.promo_codes))
  Reprices-tables promo promo' c d (inr (e, k)) =
      (k.products, k.orders, k.order_items, inr (e, k.promo_codes))

  pub move_codes :
      (promo promo' : Option ℕ) (a c d f : Db D)
      → c.promo_codes ≡ a.promo_codes
      → f.promo_codes ≡ d.promo_codes
      → ((promo' ≡ promo) × (d.promo_codes ≡ c.promo_codes))
        ⊎ ((promo' ≡ none) × (d.promo_codes ≡ refunded promo c.promo_codes))
      → ((promo' ≡ promo) × (f.promo_codes ≡ a.promo_codes))
        ⊎ ((promo' ≡ none) × (f.promo_codes ≡ refunded promo a.promo_codes))
  move_codes promo promo' a c d f ca fd (inl (e, k)) = inl (e, fd ∙ k ∙ ca)
  move_codes promo promo' a c d f ca fd (inr (e, k)) = inr (e, fd ∙ k ∙ ap (refunded promo) ca)

  -- The statements up to the new amounts of the order, one after the other.
  pub Emptied-steps :
      (pid n id now : ℕ) (promo promo' : Option ℕ) (a b c d e f : Db D) (is : List (OrderItem D))
      → is ≡ order_by_id (filter_rows (is_item_of id) a.order_items)
      → Returned pid (ordered pid is) a b
      → Taken pid n b c
      → Reprices promo promo' c d
      → (e.order_items ≡ others id d.order_items)
        × (e.products ≡ d.products)
        × (e.orders ≡ d.orders)
        × (e.promo_codes ≡ d.promo_codes)
      → (total : D) × (discount : D) × (f.orders
          ≡ update_rows order_id id (with_amounts now total discount promo') e.orders)
        × (f.products ≡ e.products)
        × (f.order_items ≡ e.order_items)
        × (f.promo_codes ≡ e.promo_codes)
      → Emptied pid n id promo a f
  Emptied-steps pid n id now promo promo' a b c d e f is eq r t p x y =
      let q = Reprices-tables promo promo' c d p in
      let products : f.products ≡ c.products = y.3 ∙ x.1 ∙ q.0 in
      record {
        now = now;
        total = y.0;
        discount = y.1;
        promo' = promo';
        stock =
            rw products t.stock
            ∙ r.stock
            ∙ ap (λ k. stock_at pid a.products + k)
                (ap (ordered pid) eq ∙ ordered-order_by_id pid _);
        listed = rw products t.listed;
        orders =
            y.2
            ∙ ap (update_rows order_id id (with_amounts now y.0 y.1 promo'))
                (x.2 ∙ q.1 ∙ t.rest.orders ∙ r.rest.orders);
        order_items = y.4 ∙ x.0 ∙ ap (others id) (q.2 ∙ t.rest.order_items ∙ r.rest.order_items);
        promo_codes =
            move_codes promo promo' a c d f (t.rest.promo_codes ∙ r.rest.promo_codes) (y.5 ∙ x.3)
              q.3;
      }

  -- The new items complete it.
  pub Updates-steps :
      (pid n id : ℕ) (promo : Option ℕ) (a f g h : Db D)
      → Emptied pid n id promo a f
      → Added pid n f g
      → (h.orders ≡ g.orders)
        × (h.products ≡ g.products)
        × (h.order_items ≡ g.order_items)
        × (h.promo_codes ≡ g.promo_codes)
      → Updates pid id promo a h
  Updates-steps pid n id promo a f g h x y z = record {
    n = n;
    now = x.now;
    total = x.total;
    discount = x.discount;
    promo' = x.promo';
    stock = rw (z.1 ∙ y.products) x.stock;
    listed = rw (z.1 ∙ y.products) x.listed;
    orders = z.0 ∙ y.orders ∙ x.orders;
    held_units = rw (z.0, z.2) (y.held_units ∙ rw (y.orders, x.order_items));
    closed = rw (z.0, z.2) y.closed;
    promo_codes = move_codes promo x.promo' a a f h refl (z.3 ∙ y.promo_codes) x.promo_codes;
  }

  pub is_created-is_live :
      (id : ℕ) (os : List (Order D)) {o : Order D}
      → find_row order_id id os ≡ some o
      → is_created o.status ≡ true
      → is_live id os ≡ true
  is_created-is_live id os e act = ground arith

  -- What the stock gains and loses is what the order holds less and more.
  pub Updates-Accounts :
      (pid id n : ℕ) (promo : Option ℕ) (db db' : Db D)
      → is_live id db.orders ≡ true
      → Accounts pid n db
      → Updates pid id promo db db'
      → Accounts pid n db'
  Updates-Accounts pid id n promo db db' live acc u = record {
    units = omega (
      arith,
      u.stock,
      u.held_units,
      acc.units,
      ap (λ os. held pid os (others id db.order_items)) u.orders,
      held-update_rows pid id (with_amounts u.now u.total u.discount u.promo') db.orders
          (others id db.order_items) (λ o. refl) (λ o. refl),
      held-delete pid id db.orders db.order_items live,
    );
    listed = u.listed;
    closed = u.closed;
  }

  pub Emptied-is_live :
      (pid n id : ℕ) (promo : Option ℕ) (db db' : Db D)
      → is_live id db.orders ≡ true
      → Emptied pid n id promo db db'
      → is_live id db'.orders ≡ true
  Emptied-is_live pid n id promo db db' live x = rw x.orders (
      is_live-update_rows id id (with_amounts x.now x.total x.discount x.promo') db.orders
        (λ o. refl) (λ o. refl)
      ∙ live)

  pub Emptied-closed :
      (pid n id : ℕ) (promo : Option ℕ) (db db' : Db D)
      → AllHaveOrder db.orders db.order_items
      → Emptied pid n id promo db db'
      → AllHaveOrder db'.orders db'.order_items
  Emptied-closed pid n id promo db db' closed x =
      rw (x.orders, x.order_items)
        (AllHaveOrder-update_rows id _ db.orders _ (λ o. refl)
          (AllHaveOrder-filter_rows _ db.orders db.order_items closed))
