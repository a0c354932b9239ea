-- ===== src/Orders/Conserve/Create.antt =====
-- `Create` of internal/service/orders.go moves units from the stock to the new order.
pub mod Tables
use soa_hw.Base.{ℕ, true, ◌≡◌, ◌≢◌, refl, ◌+◌, ◌∙◌, none, ◌∷◌, arith, Option, ap}
use soa_hw.Base.Rows.{find_row, first_row}
use soa_hw.Store.Schema.{Db, Order, created, OperationType, UserOperation}
use soa_hw.Store.Env.{Env, Decimals}
use soa_hw.Store.Session.{Session, Error, Result, ok, err, no_rows, attempt, tx}
use soa_hw.Store.Session.Laws.{
  Post, Post-pure, Post-raise, Post-bind, Post-seq, Post-map, Post-tx, Post-attempt-tx, Post-in_tx,
}
use soa_hw.Store.Session.Atomic.{Whole, Undone, Undone-seq, in_tx-rollback, after_all, Post-Keeps}
use soa_hw.Store.Queries.{
  create_order, create_user_operation, get_active_order_by_user_id, is_active_of,
}
use soa_hw.Store.Queries.Checks.{order_id}
use soa_hw.Orders.Types.{CreateOrderInput}
use soa_hw.Orders.Service.{create, create_body, none_active}
use soa_hw.Orders.Reads.{Keeps-check_rate_limit}
use soa_hw.Orders.Promo.{Claims, claimed, apply_promo-Claims}
use soa_hw.Orders.Supply.{Accounts}
use soa_hw.Orders.Supply.Stock.{IsListed, stock_at}
use soa_hw.Orders.Supply.Held.{held, AllHaveOrder, is_live, held-new_order, AllHaveOrder-new_order}
use soa_hw.Orders.Supply.Moves.{Taken}
use soa_hw.Orders.Supply.Items.{Added}
use soa_hw.Orders.Supply.Loops.{requested, take_items-Taken, create_items-Added}
use Tables.{
  IsNewOrder, create_order-found, Creates, Inserted, Inserted-steps, Inserted-closed,
  Inserted-is_live, Creates-steps, Creates-Accounts, get_active_order-none,
  create_user_operation-found, HasNone, HasNone-other, none_active-HasNone,
}

module _ {D : Type 0} where
  module _ (env : Env D) where
    check_active :
        (user : ℕ) (s : Session D)
        → Post (HasNone user s.db) (attempt (tx env (get_active_order_by_user_id user)) s)
    check_active user s =
        Post-attempt-tx env _ _ s (λ s' uuid now o _ h. tt)
          (λ s' uuid now h e. (e, get_active_order-none user uuid now s.db h))
          (λ s' e _ h. HasNone-other user s.db e s' h)

    pub create_body-Creates :
        (pid : ℕ) (i : CreateOrderInput) (s : Session D)
        → IsListed pid s.db.products
        → AllHaveOrder s.db.orders s.db.order_items
        → Post (λ _ s'. Creates pid i s.db s'.db) (create_body env i s)
    unfolding create_body
    create_body-Creates pid i s l closed =
        Post-bind (HasNone i.user_id s.db) _ _ _ s (check_active i.user_id s) λ found s0 h0.
          Post-seq
            (λ _ s1. (s1.db ≡ s.db) × (first_row (is_active_of i.user_id) s.db.orders ≡ none)) _ _ _
            s0 (none_active-HasNone i.user_id s.db found s0 h0)
            λ _ s1 h1.
              Post-bind (λ r s2. Taken pid (requested pid r.0) s.db s2.db) _ _ _ s1
                (rw (← h1.0) (take_items-Taken env pid i.items s1 (rw h1.0 l)))
                λ taken s2 t.
                  Post-bind (λ p s3. Claims p.promo_code_id s2.db s3.db) _ _ _ s2
                    (apply_promo-Claims env i.promo_code taken.1 s2)
                    λ priced s3 f.
                      Post-bind (λ o s4. Inserted pid (requested pid taken.0) i o s.db s4.db) _ _ _
                        s3
                        (Post-tx env _ _ s3 λ s4 uuid now o _ h.
                          Inserted-steps pid _ i priced.promo_code_id o s.db s2.db s3.db s4.db t f (
                            create_order-found env.decimal i.user_id priced.promo_code_id
                              priced.total priced.discount uuid now s3.db s4.db h))
                        λ o s4 x.
                          Post-bind (λ _ s5. Added pid (requested pid taken.0) s4.db s5.db) _ _ _ s4
                            (create_items-Added env pid o.id taken.0 s4
                              (Inserted-is_live pid _ i o s.db s4.db x)
                              (Inserted-closed pid _ i o s.db s4.db x closed))
                            λ is s5 y.
                              Post-seq (λ _ s6. Creates pid i s.db s6.db) _ _ _ s5
                                (Post-tx env _ _ s5 λ s6 uuid now _ _ h.
                                  Creates-steps pid _ i o s.db s4.db s5.db s6.db h1.1 x y (
                                    create_user_operation-found i.user_id OperationType.create_order
                                      uuid now s5.db s6.db h))
                                λ _ s6 c. Post-pure _ _ s6 c

    -- A creation that fails changes nothing, or is carried out with its COMMIT.
    pub create-Undone :
        (limit : ℕ) (i : CreateOrderInput) (s : Session D)
        → Undone (Whole env (create_body env i) s.db) s.db (create env limit i s)
    unfolding create
    create-Undone limit i s =
        Undone-seq _ s.db _ _ s
          (Keeps-check_rate_limit env limit s.db i.user_id OperationType.create_order s refl)
          λ s1 h. rw (← h) (in_tx-rollback env (create_body env i) s1)

    pub create-Creates :
        (pid limit : ℕ) (i : CreateOrderInput) (s : Session D)
        → IsListed pid s.db.products
        → AllHaveOrder s.db.orders s.db.order_items
        → Post (λ _ s'. Creates pid i s.db s'.db) (create env limit i s)
    unfolding create
    create-Creates pid limit i s l closed =
        Post-seq (λ _ s1. s1.db ≡ s.db) _ _ _ s
          (Post-Keeps s.db _
            (Keeps-check_rate_limit env limit s.db i.user_id OperationType.create_order s refl))
          λ _ s1 h1.
            Post-in_tx env (λ _ db. Creates pid i s.db db) (create_body env i) s1
              λ s2 h2.
                let e = h2 ∙ h1 in rw (← e) (create_body-Creates pid i s2 (rw e l) (rw e closed))
