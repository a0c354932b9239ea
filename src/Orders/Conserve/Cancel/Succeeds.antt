-- ===== src/Orders/Conserve/Cancel/Succeeds.antt =====
-- When `Cancel` of internal/service/orders.go succeeds.
use soa_hw.Base.{ℕ, String, true, false, ==_iff, ◌≡◌, ◌∙◌, ap, refl, arith, Option, none, some, []}
use soa_hw.Base.Rows.{find_row, filter_rows, update_rows, find_row-update_rows}
use soa_hw.Store.Schema.{Db, Order, canceled}
use soa_hw.Store.Env.{Env}
use soa_hw.Store.Session.{Session, ok}
use soa_hw.Store.Session.Success.{
  Gives, Gives-pure, Gives-bind, Gives-seq, Gives-or_no_rows, Gives-raise_if, Gives-attempt,
  Gives-map, Gives-pool, Gives-tx, Gives-in_tx,
}
use soa_hw.Store.Queries.{
  get_order_by_id, get_order_items, decrement_promo_uses, update_order_status, is_active,
  is_item_of, with_status,
}
use soa_hw.Store.Queries.Checks.{order_id}
use soa_hw.Orders.Types.{OrderWithItems, is_foreign}
use soa_hw.Orders.Service.{cancel, cancel_check, cancel_body, refund_promo}
use soa_hw.Orders.Supply.Held.{ordered-order_by_id}
use soa_hw.Orders.Conserve.Cancel.Room.{HasRoom, HasRoomFor, restore_all-Gives}

module _ {D : Type 0} where
  -- The order is answered as CANCELED, and is found so.
  abbrev pub IsCanceled : ℕ → OrderWithItems D → Db D → Type 0
  IsCanceled id r db = (r.order.status ≡ canceled) × (find_row order_id id db.orders ≡ some r.order)

  module _ (env : Env D) (good : (k : ℕ) → env.fault k ≡ false) where
    refund_promo-Gives :
        (promo : Option ℕ) (s : Session D)
        → s.aborted ≡ false
        → Gives
            (λ _ t.
              (t.aborted ≡ false) × (t.db.orders ≡ s.db.orders) × (t.db.products ≡ s.db.products))
            (refund_promo env promo s)
    unfolding decrement_promo_uses
    refund_promo-Gives none s run = Gives-pure _ tt s (run, refl, refl)
    refund_promo-Gives (some id) s run =
        Gives-seq _ _ _ _ s
          (Gives-attempt
            (λ _ t.
              (t.aborted ≡ false) × (t.db.orders ≡ s.db.orders) × (t.db.products ≡ s.db.products))
            _ _ s
            (Gives-tx env good _ _ s run
              λ uuid now. (tt, _, refl, λ t same run'. (run', rw same refl, rw same refl)))
            (λ _ t h. h))
          λ _ t h. Gives-pure _ tt t h

    set_canceled :
        (id uuid now : ℕ) (o : Order D) (db : Db D)
        → find_row order_id id db.orders ≡ some o
        → (db' : Db D) × (update_order_status id canceled uuid now db
            ≡ ok (with_status now canceled o, db'))
          × (find_row order_id id db'.orders ≡ some (with_status now canceled o))
          × (db'.products ≡ db.products)
    unfolding update_order_status
    set_canceled id uuid now o db found = (
      record db { orders = update_rows order_id id (with_status now canceled) db.orders },
      rw found refl,
      find_row-update_rows order_id id id (with_status now canceled) db.orders (λ o. refl)
          ∙ rw ((==_iff id id).1 refl, found) refl,
      refl,
    )

    -- The order `o` was read before; `row` is found now.
    pub cancel_body-Gives :
        (more : ℕ → ℕ) (id : ℕ) (o row : Order D) (s : Session D)
        → s.aborted ≡ false
        → find_row order_id id s.db.orders ≡ some row
        → HasRoomFor more (filter_rows (is_item_of id) s.db.order_items) s.db
        → Gives
            (λ r t. (t.aborted ≡ false) × IsCanceled id r t.db × HasRoomFor more [] t.db)
            (cancel_body env id o s)
    unfolding cancel_body get_order_items
    cancel_body-Gives more id o row s run found room =
        Gives-bind
          (λ is t. (t.aborted ≡ false) × (t.db.orders ≡ s.db.orders) × HasRoomFor more is t.db) _ _
          _ s
          (Gives-tx env good _ _ s run λ uuid now. (
            _,
            _,
            refl,
            λ t same run'. (
              run',
              rw same refl,
              rw same λ pid l.
                  rw (ordered-order_by_id pid (filter_rows (is_item_of id) s.db.order_items))
                    (room pid l),
            ),
          ))
          λ is t h. Gives-seq _ _ _ _ t (restore_all-Gives env good more is t h.0 h.2) λ _ u k.
            Gives-seq _ _ _ _ u (refund_promo-Gives o.promo_code_id u k.0) λ _ v l.
              Gives-bind
                (λ o' w.
                  (w.aborted ≡ false)
                  × IsCanceled id (record { order = o'; items = is }) w.db
                  × HasRoomFor more [] w.db)
                _ _ _ v
                (Gives-tx env good _ _ v l.0 λ uuid now.
                  let here : find_row order_id id v.db.orders ≡ some row =
                    ap (find_row order_id id) (l.1 ∙ k.1 ∙ h.1) ∙ found in
                  let (db', e, now_canceled, shelf) = set_canceled id uuid now row v.db here in
                  (
                    _,
                    db',
                    e,
                    λ w same run'. (run', (refl, rw same now_canceled), rw (same, shelf, l.2) k.2),
                  ))
                λ o' w m. Gives-pure _ _ w m

    found_order :
        (id uuid now : ℕ) (o : Order D) (db : Db D)
        → find_row order_id id db.orders ≡ some o
        → get_order_by_id id uuid now db ≡ ok (o, db)
    unfolding get_order_by_id
    found_order id uuid now o db found = rw found

    pub cancel_check-Gives :
        (id caller : ℕ) (role : String) (o : Order D) (s : Session D)
        → find_row order_id id s.db.orders ≡ some o
        → is_foreign role caller o ≡ false
        → is_active o.status ≡ true
        → Gives (λ o' t. (o' ≡ o) × (t.db ≡ s.db)) (cancel_check env id caller role s)
    unfolding cancel_check
    cancel_check-Gives id caller role o s found own act =
        Gives-bind (λ o' t. (o' ≡ o) × (t.db ≡ s.db)) _ _ _ s
          (Gives-or_no_rows _ _ _ s (
            Gives-pool env good _ _ s λ uuid now.
              (o, s.db, found_order id uuid now o s.db found, λ t same _. (refl, same))))
          λ o' t h.
            Gives-seq (λ _ u. u.db ≡ s.db) _ _ _ t (Gives-raise_if _ _ _ t (rw h.0 own) h.1)
              λ _ u k.
                Gives-seq (λ _ v. v.db ≡ s.db) _ _ _ u
                  (Gives-raise_if _ _ _ u (rw (h.0, act) refl) k)
                  λ _ v l. Gives-pure _ o' v (h.0, l)

    -- In a database that does not fail, for an order that is there and active, a caller who is its
    -- owner or an ADMIN, and items whose units fit into the stock column of their products: Cancel
    -- succeeds, answers with the order as CANCELED, and the order is found so.
    pub cancel-Gives :
        (id caller : ℕ) (role : String) (o : Order D) (s : Session D)
        → find_row order_id id s.db.orders ≡ some o
        → is_foreign role caller o ≡ false
        → is_active o.status ≡ true
        → HasRoom (filter_rows (is_item_of id) s.db.order_items) s.db
        → Gives (λ r t. IsCanceled id r t.db) (cancel env id caller role s)
    unfolding cancel
    cancel-Gives id caller role o s found own act room =
        Gives-bind _ _ _ _ s (cancel_check-Gives id caller role o s found own act) λ o' t h.
          Gives-in_tx env good (IsCanceled id) _ t λ u same run.
            Gives-map _ _ _
              (cancel_body-Gives (λ _. 0) id o' o u run (rw (same ∙ h.1) found)
                (rw (same ∙ h.1) λ pid l. ground (arith, room pid l)))
              λ r v k. (k.0, k.1)
