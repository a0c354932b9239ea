-- ===== src/Orders/Conserve/Update.antt =====
-- `Update` of internal/service/orders.go gives the old items back and takes the new ones.
pub mod Tables
use soa_hw.Base.{
  ℕ, true, not, ◌≡◌, refl, ◌+◌, ◌∙◌, some, none, List, arith, Option, ap, ◌⊎◌, inl, inr,
}
use soa_hw.Base.Rows.{find_row, filter_rows, update_rows}
use soa_hw.Store.Schema.{Db, Order, OrderItem, OperationType}
use soa_hw.Store.Env.{Env, Decimals}
use soa_hw.Store.Session.{Session, ok}
use soa_hw.Store.Session.Laws.{Post, Post-pure, Post-bind, Post-seq, Post-map, Post-tx, Post-in_tx}
use soa_hw.Store.Session.Atomic.{Whole, Undone, Undone-bind, Undone-map, in_tx-rollback, after_all}
use soa_hw.Store.Queries.{update_order_amounts, delete_order_items, is_item_of, with_amounts}
use soa_hw.Store.Queries.Orders.{order_by_id}
use soa_hw.Store.Queries.Checks.{order_id, one, amount, >>=-passed}
use soa_hw.Orders.Types.{UpdateOrderInput}
use soa_hw.Orders.Service.{update, update_body, is_created}
use soa_hw.Orders.Reads.{Keeps-update_check, Post-update_check}
use soa_hw.Orders.Promo.{refunded, Reprices, reprice-Reprices}
use soa_hw.Orders.Supply.{Accounts}
use soa_hw.Orders.Supply.Stock.{IsListed, stock_at}
use soa_hw.Orders.Supply.Held.{
  held, ordered, AllHaveOrder, is_live, ordered-order_by_id, held-delete, held-update_rows,
  AllHaveOrder-update_rows, AllHaveOrder-filter_rows, is_live-update_rows,
}
use soa_hw.Orders.Supply.Moves.{Taken, Returned}
use soa_hw.Orders.Supply.Items.{Added}
use soa_hw.Orders.Supply.Loops.{
  requested, restore_all-Returned, take_items-Taken, create_items-Added,
}
use soa_hw.Orders.Conserve.Cancel.Tables.{get_order_items-found}
use soa_hw.Orders.Conserve.Create.Tables.{create_user_operation-found}
use Tables.{
  others, Updates, Emptied, delete_order_items-found, update_order_amounts-found, Reprices-tables,
  move_codes, Emptied-steps, Updates-steps, is_created-is_live, Updates-Accounts, Emptied-is_live,
  Emptied-closed,
}

module _ {D : Type 0} where
  module _ (env : Env D) where
    pub update_body-Updates :
        (pid : ℕ) (order : Order D) (i : UpdateOrderInput) (s : Session D)
        → IsListed pid s.db.products
        → AllHaveOrder s.db.orders s.db.order_items
        → is_live i.order_id s.db.orders ≡ true
        → Post
            (λ _ s'. Updates pid i.order_id order.promo_code_id s.db s'.db)
            (update_body env order i s)
    unfolding update_body
    update_body-Updates pid order i s l closed live =
        Post-bind
          (λ is s1.
            (s1.db ≡ s.db)
            × (is ≡ order_by_id (filter_rows (is_item_of i.order_id) s.db.order_items)))
          _ _ _ s
          (Post-tx env _ _ s
            λ s1 uuid now is _ h. get_order_items-found i.order_id uuid now s.db s1.db h)
          λ is s1 p.
            Post-seq (λ _ s2. Returned pid (ordered pid is) s.db s2.db) _ _ _ s1
              (rw (← p.0) (restore_all-Returned env pid is s1 (rw p.0 l)))
              λ _ s2 r.
                Post-bind (λ x s3. Taken pid (requested pid x.0) s2.db s3.db) _ _ _ s2
                  (take_items-Taken env pid i.items s2 r.listed)
                  λ taken s3 t.
                    Post-bind
                      (λ x s4. (s4.aborted ≡ true) ⊎ Reprices order.promo_code_id x.1 s3.db s4.db) _
                      _ _ s3 (reprice-Reprices env order.promo_code_id taken.1 s3)
                      λ priced s4 f.
                        Post-seq
                          (λ _ s5.
                            Reprices order.promo_code_id priced.1 s3.db s4.db
                            × (s5.db.order_items ≡ others i.order_id s4.db.order_items)
                            × (s5.db.products ≡ s4.db.products)
                            × (s5.db.orders ≡ s4.db.orders)
                            × (s5.db.promo_codes ≡ s4.db.promo_codes))
                          _ _ _ s4
                          (Post-tx env _ _ s4 λ s5 uuid now _ running h. elim f [
                            | inl broken ↦ cc
                            | inr f' ↦
                                let x =
                                  delete_order_items-found i.order_id uuid now s4.db s5.db h in
                                (f', x.0, x.1, x.2, x.3)
                          ])
                          λ _ s5 x.
                            Post-bind
                              (λ _ s6.
                                Emptied pid (requested pid taken.0) i.order_id order.promo_code_id
                                  s.db s6.db)
                              _ _ _ s5
                              (Post-tx env _ _ s5 λ s6 uuid now o _ h.
                                Emptied-steps pid _ i.order_id now order.promo_code_id priced.1 s.db
                                  s2.db s3.db s4.db s5.db s6.db is p.1 r t x.0 (x.1, x.2, x.3, x.4)
                                  (update_order_amounts-found env.decimal i.order_id _ priced.0
                                    priced.1 uuid now s5.db s6.db h))
                              λ o s6 y.
                                Post-bind (λ _ s7. Added pid (requested pid taken.0) s6.db s7.db) _
                                  _ _ s6
                                  (create_items-Added env pid i.order_id taken.0 s6
                                    (Emptied-is_live pid _ i.order_id order.promo_code_id s.db s6.db
                                      live y)
                                    (Emptied-closed pid _ i.order_id order.promo_code_id s.db s6.db
                                      closed y))
                                  λ made s7 z.
                                    Post-seq
                                      (λ _ s8.
                                        Updates pid i.order_id order.promo_code_id s.db s8.db)
                                      _ _ _ s7
                                      (Post-tx env _ _ s7 λ s8 uuid now _ _ h.
                                        Updates-steps pid _ i.order_id order.promo_code_id s.db
                                          s6.db s7.db s8.db y z
                                          (create_user_operation-found i.caller_id
                                            OperationType.update_order uuid now s7.db s8.db h))
                                      λ _ s8 u. Post-pure _ _ s8 u

    -- An update that fails changes nothing, or is carried out with its COMMIT.
    pub update-Undone :
        (limit : ℕ) (i : UpdateOrderInput) (s : Session D)
        → Undone
            (λ db'.
              (o : Order D) × (find_row order_id i.order_id s.db.orders ≡ some o)
              × (is_created o.status ≡ true)
              × Whole env (update_body env o i) s.db db')
            s.db
            (update env limit i s)
    unfolding update
    update-Undone limit i s =
        Undone-bind _ _ s.db _ _ s (Keeps-update_check env limit s.db i s refl)
          (Post-update_check env limit i s)
          λ o s1 e p.
            Undone-map (Whole env (update_body env o i) s.db) _ s.db _ (λ db' w. (o, p.1, p.3, w))
              (rw (← e) (in_tx-rollback env (update_body env o i) s1))

    pub update-Updates :
        (pid limit : ℕ) (i : UpdateOrderInput) (s : Session D)
        → IsListed pid s.db.products
        → AllHaveOrder s.db.orders s.db.order_items
        → Post
            (λ r s'.
              (o : Order D) × (find_row order_id i.order_id s.db.orders ≡ some o)
              × (is_created o.status ≡ true)
              × Updates pid i.order_id o.promo_code_id s.db s'.db)
            (update env limit i s)
    unfolding update
    update-Updates pid limit i s l closed =
        Post-bind _ _ _ _ s (Post-update_check env limit i s) λ o s1 p.
          Post-in_tx env
            (λ r db.
              (o : Order D) × (find_row order_id i.order_id s.db.orders ≡ some o)
              × (is_created o.status ≡ true)
              × Updates pid i.order_id o.promo_code_id s.db db)
            (update_body env o i) s1
            λ s2 q.
              let e = q ∙ p.0 in
              Post-map _ _ _
                (update_body-Updates pid o i s2 (rw e l) (rw e closed)
                  (rw e (is_created-is_live i.order_id s.db.orders p.1 p.3)))
                λ r s3 u. (o, p.1, p.3, rw e at u)
