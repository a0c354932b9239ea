-- ===== src/Orders/Conserve/Cancel/Overlap.antt =====
-- Two calls of `Cancel` of internal/service/orders.go whose checks both come before their transactions.
use soa_hw.Base.{ℕ, String, true, false, ◌+◌, ◌≡◌, ◌∙◌, ap, arith, some, []}
use soa_hw.Base.Rows.{find_row, filter_rows}
use soa_hw.Store.Schema.{Db, Order}
use soa_hw.Store.Env.{Env}
use soa_hw.Store.Session.{Session, Action, in_tx, ◌>>=◌, ◌>>◌}
use soa_hw.Store.Session.Laws.{Post-all}
use soa_hw.Store.Session.Success.{Gives, Gives-bind, Gives-seq, Gives-map, Gives-in_tx, Gives-Post}
use soa_hw.Store.Queries.{is_active, is_item_of}
use soa_hw.Store.Queries.Checks.{order_id}
use soa_hw.Orders.Types.{OrderWithItems, is_foreign}
use soa_hw.Orders.Service.{cancel_check, cancel_body}
use soa_hw.Orders.Supply.Stock.{IsListed, stock_at}
use soa_hw.Orders.Supply.Held.{ordered}
use soa_hw.Orders.Conserve.Cancel.{cancel_body-Cancels}
use soa_hw.Orders.Conserve.Cancel.Tables.{Cancels}
use soa_hw.Orders.Conserve.Cancel.Room.{HasRoomFor}
use soa_hw.Orders.Conserve.Cancel.Succeeds.{IsCanceled, cancel_body-Gives, cancel_check-Gives}

module _ {D : Type 0} (env : Env D) where
  -- The schedule: both check, then the one transaction runs, then the other.
  unfoldable pub overlapping_cancels : ℕ → ℕ → String → Action D (OrderWithItems D)
  overlapping_cancels id caller role = do
    first ← cancel_check env id caller role
    second ← cancel_check env id caller role
    in_tx env (cancel_body env id first)
    in_tx env (cancel_body env id second)

  abbrev pub units : ℕ → ℕ → Session D → ℕ
  units pid id s = ordered pid (filter_rows (is_item_of id) s.db.order_items)

  module _ (good : (k : ℕ) → env.fault k ≡ false) (more : ℕ → ℕ) (id : ℕ) where
    -- What one of the transactions leaves, whatever the status of the row is.
    abbrev Freed : Order D → Db D → OrderWithItems D → Db D → Type 0
    Freed o db r db' =
        IsCanceled id r db'
        × HasRoomFor more [] db'
        × ((pid : ℕ) → IsListed pid db.products → Cancels pid id o.promo_code_id db db')

    transaction-Gives :
        (o row : Order D) (s : Session D)
        → find_row order_id id s.db.orders ≡ some row
        → HasRoomFor more (filter_rows (is_item_of id) s.db.order_items) s.db
        → Gives (λ r t. Freed o s.db r t.db) (in_tx env (cancel_body env id o) s)
    transaction-Gives o row s found room = Gives-in_tx env good (Freed o s.db) _ s λ u same run.
        Gives-map _ _ _
          (Gives-Post _ _ _
            (cancel_body-Gives env good more id o row u run (rw same found) (rw same room))
            (Post-all _ _ λ pid.
              Post-all _ _
                λ (l : IsListed pid s.db.products). cancel_body-Cancels env pid id o u (rw same l)))
          λ r t h. (h.0.0, (h.0.1, h.0.2, λ pid l. rw same at h.1 pid l))

  module _ (good : (k : ℕ) → env.fault k ≡ false) (id caller pid : ℕ) (role : String)
      (o : Order D) where
    -- In a database that does not fail, for an order that is there and active, a caller who is its
    -- owner or an ADMIN, and a stock column that has room: when two calls of Cancel both read and
    -- check the order before the transaction of either begins, both transactions commit, and the
    -- stock of each listed product gains the units of the order twice.
    pub overlapping_cancels-Gives :
        (s : Session D)
        → find_row order_id id s.db.orders ≡ some o
        → is_foreign role caller o ≡ false
        → is_active o.status ≡ true
        → IsListed pid s.db.products
        → HasRoomFor (λ p. units p id s) (filter_rows (is_item_of id) s.db.order_items) s.db
        → Gives
            (λ r t.
              stock_at pid t.db.products
              ≡ stock_at pid s.db.products + (units pid id s + units pid id s))
            (overlapping_cancels id caller role s)
    unfolding overlapping_cancels ordered
    overlapping_cancels-Gives s found own act listed room =
        Gives-bind _ _ _ _ s (cancel_check-Gives env good id caller role o s found own act)
          λ a s1 h.
            Gives-bind _ _ _ _ s1
              (cancel_check-Gives env good id caller role o s1 (rw h.1 found) own act)
              λ b s2 k.
                let same : s2.db ≡ s.db = k.1 ∙ h.1 in
                Gives-seq _ _ _ _ s2
                  (transaction-Gives good (λ p. units p id s) id a o s2 (rw same found)
                    (rw same room))
                  λ r t f.
                    let c : Cancels pid id a.promo_code_id s.db t.db = rw same at f.2 pid listed in
                    Gives-map _ _ _
                      (transaction-Gives good (λ _. 0) id b r.order t f.0.1
                        (rw c.order_items λ p l. ground (arith, f.1 p l)))
                      λ r' t' g.
                        let c' : Cancels pid id b.promo_code_id t.db t'.db = g.2 pid c.listed in
                        ground (
                          arith,
                          c.stock,
                          c'.stock,
                          ap (λ is. ordered pid (filter_rows (is_item_of id) is)) c.order_items,
                        )
