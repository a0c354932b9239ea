-- ===== src/Store/Queries/Orders.antt =====
-- internal/db/queries/orders.sql
use soa_hw.Base.{
  ℕ, Bool, true, false, not, ◌&&◌, List, [], ◌∷◌, Option, none, some, ltb, ◌==◌, if◌then◌else◌,
  is_some,
}
use soa_hw.Base.Rows.{first_row, find_row, update_rows, filter_rows}
use soa_hw.Store.Schema.{PromoCode, Order, OrderItem, OrderStatus, created, payment_pending}
use soa_hw.Store.Env.{Decimals}
use soa_hw.Store.Session.{
  Query, ok, constraint, unique_violation, check_violation, foreign_key_violation,
}
use soa_hw.Store.Queries.Checks.{
  user_id, product_id, promo_id, order_id, item_id, one, require, int4, amount, positive_amount,
  ◌>>=◌, ◌>>◌,
}

-- status IN ('CREATED', 'PAYMENT_PENDING')
abbrev pub is_active : OrderStatus → Bool
is_active created = true
is_active payment_pending = true
is_active _ = false

module _ {D : Type 0} where
  abbrev known_promo : Option ℕ → List (PromoCode D) → Bool
  known_promo none ps = true
  known_promo (some id) ps = is_some (find_row promo_id id ps)

  -- Parameters of CreateOrder; the status is 'CREATED'.
  unfoldable pub create_order : Decimals D → ℕ → Option ℕ → D → D → Query D (Order D)
  create_order dec uid promo total discount uuid now db = do
    total_amount ← amount dec total
    discount_amount ← amount dec discount
    require (not (is_some (find_row order_id uuid db.orders))) (constraint unique_violation)
    require (is_some (find_row user_id uid db.users)) (constraint foreign_key_violation)
    require (known_promo promo db.promo_codes) (constraint foreign_key_violation)
    let o : Order D = record {
      id = uuid;
      user_id = uid;
      status = created;
      promo_code_id = promo;
      total_amount = total_amount;
      discount_amount = discount_amount;
      created_at = now;
      updated_at = now;
    }
    ok (o, record db { orders = o ∷ db.orders })

  unfoldable pub get_order_by_id : ℕ → Query D (Order D)
  get_order_by_id id uuid now db = do o ← one (find_row order_id id db.orders); ok (o, db)

  -- No method calls it.
  unfoldable pub get_order_by_id_for_update : ℕ → Query D (Order D)
  get_order_by_id_for_update id uuid now db = do
    o ← one (find_row order_id id db.orders)
    ok (o, db)

  abbrev pub is_active_of : ℕ → Order D → Bool
  is_active_of uid o = (o.user_id == uid) && is_active o.status

  unfoldable pub get_active_order_by_user_id : ℕ → Query D (Order D)
  get_active_order_by_user_id uid uuid now db = do
    o ← one (first_row (is_active_of uid) db.orders)
    ok (o, db)

  abbrev pub with_status : ℕ → OrderStatus → Order D → Order D
  with_status now status o = record o { status = status; updated_at = now }

  unfoldable pub update_order_status : ℕ → OrderStatus → Query D (Order D)
  update_order_status id status uuid now db = do
    o ← one (find_row order_id id db.orders)
    ok (
      with_status now status o,
      record db { orders = update_rows order_id id (with_status now status) db.orders },
    )

  abbrev pub with_amounts : ℕ → D → D → Option ℕ → Order D → Order D
  with_amounts now total discount promo o = record o {
    total_amount = total;
    discount_amount = discount;
    promo_code_id = promo;
    updated_at = now;
  }

  unfoldable pub update_order_amounts : Decimals D → ℕ → D → D → Option ℕ → Query D (Order D)
  update_order_amounts dec id total discount promo uuid now db = do
    o ← one (find_row order_id id db.orders)
    total_amount ← amount dec total
    discount_amount ← amount dec discount
    require (known_promo promo db.promo_codes) (constraint foreign_key_violation)
    let f : Order D → Order D = with_amounts now total_amount discount_amount promo
    ok (f o, record db { orders = update_rows order_id id f db.orders })

  unfoldable pub create_order_item : Decimals D → ℕ → ℕ → ℕ → D → Query D (OrderItem D)
  create_order_item dec oid pid quantity price uuid now db = do
    require (ltb 0 quantity) (constraint check_violation)
    int4 quantity
    price_at_order ← positive_amount dec price
    require (not (is_some (find_row item_id uuid db.order_items))) (constraint unique_violation)
    require (is_some (find_row order_id oid db.orders)) (constraint foreign_key_violation)
    require (is_some (find_row product_id pid db.products)) (constraint foreign_key_violation)
    let i : OrderItem D = record {
      id = uuid;
      order_id = oid;
      product_id = pid;
      quantity = quantity;
      price_at_order = price_at_order;
    }
    ok (i, record db { order_items = i ∷ db.order_items })

  abbrev pub is_item_of : ℕ → OrderItem D → Bool
  is_item_of oid i = i.order_id == oid

  unfoldable pub insert_by_id : OrderItem D → List (OrderItem D) → List (OrderItem D)
  insert_by_id i [] = i ∷ []
  insert_by_id i (j ∷ js) = if ltb j.id i.id then j ∷ insert_by_id i js else i ∷ j ∷ js

  -- ORDER BY id
  unfoldable pub order_by_id : List (OrderItem D) → List (OrderItem D)
  unfolding insert_by_id
  order_by_id [] = []
  order_by_id (i ∷ is) = insert_by_id i (order_by_id is)

  unfoldable pub get_order_items : ℕ → Query D (List (OrderItem D))
  unfolding order_by_id
  get_order_items oid uuid now db =
      ok (order_by_id (filter_rows (is_item_of oid) db.order_items), db)

  unfoldable pub delete_order_items : ℕ → Query D (Unit {0})
  delete_order_items oid uuid now db =
      ok (tt, record db { order_items = filter_rows (λ i. not (is_item_of oid i)) db.order_items })
