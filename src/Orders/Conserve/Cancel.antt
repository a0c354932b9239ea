-- ===== src/Orders/Conserve/Cancel.antt =====
-- `Cancel` of internal/service/orders.go gives the units of the order back to the stock.
pub mod Tables
pub mod Room
pub mod Succeeds
pub mod Overlap
use soa_hw.Base.{ℕ, String, true, ◌≡◌, refl, ◌+◌, ◌∙◌, some, List, arith, Option, ap, ◌⊎◌, inl, inr}
use soa_hw.Base.Rows.{find_row, filter_rows, update_rows}
use soa_hw.Store.Schema.{Db, Order, OrderItem, canceled}
use soa_hw.Store.Env.{Env}
use soa_hw.Store.Session.{Session, ok}
use soa_hw.Store.Session.Laws.{Post, Post-pure, Post-bind, Post-seq, Post-map, Post-tx, Post-in_tx}
use soa_hw.Store.Session.Atomic.{Whole, Undone, Undone-bind, Undone-map, in_tx-rollback, after_all}
use soa_hw.Store.Queries.{get_order_items, update_order_status, is_active, is_item_of, with_status}
use soa_hw.Store.Queries.Orders.{order_by_id}
use soa_hw.Store.Queries.Checks.{order_id}
use soa_hw.Orders.Service.{cancel, cancel_body}
use soa_hw.Orders.Reads.{Keeps-cancel_check, Post-cancel_check}
use soa_hw.Orders.Promo.{refunded, Refunds, refund_promo-Refunds}
use soa_hw.Orders.Supply.{Accounts}
use soa_hw.Orders.Supply.Stock.{IsListed, stock_at}
use soa_hw.Orders.Supply.Held.{
  ordered, is_live, ordered-order_by_id, held-cancel, AllHaveOrder-update_rows,
}
use soa_hw.Orders.Supply.Moves.{Returned}
use soa_hw.Orders.Supply.Loops.{restore_all-Returned}
use Tables.{
  Cancels, get_order_items-found, update_order_status-found, Cancels-steps, is_active-is_live,
  Cancels-Accounts,
}

module _ {D : Type 0} where
  module _ (env : Env D) where
    pub cancel_body-Cancels :
        (pid id : ℕ) (o : Order D) (s : Session D)
        → IsListed pid s.db.products
        → Post (λ _ s'. Cancels pid id o.promo_code_id s.db s'.db) (cancel_body env id o s)
    unfolding cancel_body
    cancel_body-Cancels pid id o s l =
        Post-bind
          (λ is s1.
            (s1.db ≡ s.db) × (is ≡ order_by_id (filter_rows (is_item_of id) s.db.order_items)))
          _ _ _ s
          (Post-tx env _ _ s λ s1 uuid now is _ h. get_order_items-found id uuid now s.db s1.db h)
          λ is s1 p.
            Post-seq (λ _ s2. Returned pid (ordered pid is) s.db s2.db) _ _ _ s1
              (rw (← p.0) (restore_all-Returned env pid is s1 (rw p.0 l)))
              λ _ s2 r.
                Post-seq (λ _ s3. (s3.aborted ≡ true) ⊎ Refunds o.promo_code_id s2.db s3.db) _ _ _
                  s2 (refund_promo-Refunds env o.promo_code_id s2)
                  λ _ s3 f.
                    Post-bind (λ _ s4. Cancels pid id o.promo_code_id s.db s4.db) _ _ _ s3
                      (Post-tx env _ _ s3 λ s4 uuid now _ running h. elim f [
                        | inl broken ↦ cc
                        | inr f' ↦
                            Cancels-steps pid id now o.promo_code_id s.db s2.db s3.db s4.db is p.1 r
                              f' (update_order_status-found id uuid now s3.db s4.db h)
                      ])
                      λ o' s4 c. Post-pure _ _ s4 c

    pub cancel-Cancels :
        (pid id caller : ℕ) (role : String) (s : Session D)
        → IsListed pid s.db.products
        → Post
            (λ r s'.
              (o : Order D) × (find_row order_id id s.db.orders ≡ some o)
              × (is_active o.status ≡ true)
              × Cancels pid id o.promo_code_id s.db s'.db)
            (cancel env id caller role s)
    unfolding cancel
    cancel-Cancels pid id caller role s l =
        Post-bind _ _ _ _ s (Post-cancel_check env id caller role s) λ o s1 p.
          Post-in_tx env
            (λ r db.
              (o : Order D) × (find_row order_id id s.db.orders ≡ some o)
              × (is_active o.status ≡ true)
              × Cancels pid id o.promo_code_id s.db db)
            (cancel_body env id o) s1
            λ s2 q.
              Post-map _ _ _ (cancel_body-Cancels pid id o s2 (rw (q ∙ p.0) l))
                λ r s3 c. (o, p.1, p.3, rw (q ∙ p.0) at c)

    -- A cancelation that fails changes nothing, or is carried out with its COMMIT.
    pub cancel-Undone :
        (id caller : ℕ) (role : String) (s : Session D)
        → Undone
            (λ db'.
              (o : Order D) × (find_row order_id id s.db.orders ≡ some o)
              × (is_active o.status ≡ true)
              × Whole env (cancel_body env id o) s.db db')
            s.db
            (cancel env id caller role s)
    unfolding cancel
    cancel-Undone id caller role s =
        Undone-bind _ _ s.db _ _ s (Keeps-cancel_check env s.db id caller role s refl)
          (Post-cancel_check env id caller role s)
          λ o s1 e p.
            Undone-map (Whole env (cancel_body env id o) s.db) _ s.db _ (λ db' w. (o, p.1, p.3, w))
              (rw (← e) (in_tx-rollback env (cancel_body env id o) s1))
