-- ===== src/Orders/History/Steps.antt =====
-- What one call of `OrderService` can do to the tables, and what holds of all calls.
use soa_hw.Base.{ℕ, true, ◌≡◌, some, List, [], ◌∷◌}
use soa_hw.Base.Rows.{find_row}
use soa_hw.Store.Schema.{Db, Order}
use soa_hw.Store.Env.{Env}
use soa_hw.Store.Session.{Session}
use soa_hw.Store.Session.Laws.{Post-map}
use soa_hw.Store.Session.Atomic.{Whole, Whole-Post, Undone, Undone-Keeps, Keeps-intro, after_all}
use soa_hw.Store.Queries.{is_active}
use soa_hw.Store.Queries.Checks.{order_id}
use soa_hw.Orders.Types.{CreateOrderInput}
use soa_hw.Orders.Service.{is_created, create_body, update_body, cancel_body}
use soa_hw.Orders.Reads.{get-same}
use soa_hw.Orders.Supply.Stock.{IsListed}
use soa_hw.Orders.Supply.Held.{AllHaveOrder}
use soa_hw.Orders.Conserve.Create.Tables.{Creates}
use soa_hw.Orders.Conserve.Create.{create-Creates, create_body-Creates, create-Undone}
use soa_hw.Orders.Conserve.Update.Tables.{Updates, is_created-is_live}
use soa_hw.Orders.Conserve.Update.{update-Updates, update_body-Updates, update-Undone}
use soa_hw.Orders.Conserve.Cancel.Tables.{Cancels}
use soa_hw.Orders.Conserve.Cancel.{cancel-Cancels, cancel_body-Cancels, cancel-Undone}
use soa_hw.Orders.History.{Call, creates, updates, cancels, gets, perform, run}

-- Seen from the product `pid`: nothing is written, an order is created, the items of a CREATED order
-- are replaced, or an order that was active is canceled.
pub data Step {D : Type 0} (pid : ℕ) (db db' : Db D) : Type 0 where
  same : db' ≡ db → Step pid db db'
  created : (i : CreateOrderInput) → Creates pid i db db' → Step pid db db'
  updated :
      (id : ℕ) (o : Order D)
      → find_row order_id id db.orders ≡ some o
      → is_created o.status ≡ true
      → Updates pid id o.promo_code_id db db'
      → Step pid db db'
  canceled :
      (id : ℕ) (o : Order D)
      → find_row order_id id db.orders ≡ some o
      → is_active o.status ≡ true
      → Cancels pid id o.promo_code_id db db'
      → Step pid db db'

module _ {D : Type 0} (env : Env D) (limit : ℕ) where
  -- The tables `db'` are what the whole transaction of the call made of `db`, of which the COMMIT was
  -- carried out and its answer lost.
  unfoldable pub Carried : Call → Db D → Db D → Type 0
  Carried (creates i) db db' = Whole env (create_body env i) db db'
  Carried (updates i) db db' =
      (o : Order D) × (find_row order_id i.order_id db.orders ≡ some o)
      × (is_created o.status ≡ true)
      × Whole env (update_body env o i) db db'
  Carried (cancels id caller role) db db' =
      (o : Order D) × (find_row order_id id db.orders ≡ some o)
      × (is_active o.status ≡ true)
      × Whole env (cancel_body env id o) db db'
  Carried (gets id caller role) db db' = ⊥

  -- A call of Create, Update, Cancel or Get that returns an error, for whatever reason and at
  -- whatever statement, leaves every table as it was, unless the answer to its COMMIT was lost and
  -- the COMMIT was carried out: then the tables are those that all statements of its transaction,
  -- run without an error from the tables at its start, made.
  pub perform-Undone :
      (c : Call) (s : Session D) → Undone (Carried c s.db) s.db (perform env limit c s)
  unfolding perform Carried
  perform-Undone (creates i) s = create-Undone env limit i s
  perform-Undone (updates i) s = update-Undone env limit i s
  perform-Undone (cancels id caller role) s = cancel-Undone env id caller role s
  perform-Undone (gets id caller role) s =
      Undone-Keeps _ s.db _ (Keeps-intro s.db _ (get-same env id caller role s))

  -- For a listed product, and items that all have their order, a call of `Create`, `Update`, `Cancel`
  -- or `Get` is one step.
  pub perform-Step :
      (pid : ℕ) (c : Call) (s : Session D)
      → IsListed pid s.db.products
      → AllHaveOrder s.db.orders s.db.order_items
      → Step pid s.db (perform env limit c s).1.db
  unfolding perform
  perform-Step pid (creates i) s l closed =
      after_all (Step pid s.db) _ s.db _
        (Post-map _ _ _ (create-Creates env pid limit i s l closed) λ r t c. created i c)
        (create-Undone env limit i s) (λ db' e. same e)
        λ db' w. created i (
          Whole-Post env (Creates pid i) _ s.db db' w
            λ t e. create_body-Creates env pid i t (rw e l) (rw e closed))
  perform-Step pid (updates i) s l closed =
      after_all (Step pid s.db) _ s.db _
        (Post-map _ _ _ (update-Updates env pid limit i s l closed)
          λ r t u. updated i.order_id u.0 u.1 u.2 u.3)
        (update-Undone env limit i s) (λ db' e. same e)
        λ db' w. updated i.order_id w.0 w.1 w.2 (
          Whole-Post env (Updates pid i.order_id w.0.promo_code_id) _ s.db db' w.3 λ t e.
            update_body-Updates env pid w.0 i t (rw e l) (rw e closed)
              (rw e (is_created-is_live i.order_id s.db.orders w.1 w.2)))
  perform-Step pid (cancels id caller role) s l closed =
      after_all (Step pid s.db) _ s.db _
        (Post-map _ _ _ (cancel-Cancels env pid id caller role s l)
          λ r t c. canceled id c.0 c.1 c.2 c.3)
        (cancel-Undone env id caller role s) (λ db' e. same e)
        λ db' w. canceled id w.0 w.1 w.2 (
          Whole-Post env (Cancels pid id w.0.promo_code_id) _ s.db db' w.3
            λ t e. cancel_body-Cancels env pid id w.0 t (rw e l))
  perform-Step pid (gets id caller role) s l closed = same (get-same env id caller role s)

  -- A property that every step keeps is kept by any calls.
  pub run-keeps :
      (pid : ℕ) (P : Db D → Type 0)
      → ((db : Db D) → P db → IsListed pid db.products)
      → ((db : Db D) → P db → AllHaveOrder db.orders db.order_items)
      → ((db db' : Db D) → P db → Step pid db db' → P db')
      → (cs : List Call) (s : Session D) → P s.db
      → P (run env limit cs s).db
  unfolding run
  run-keeps pid P listed closed keeps [] s h = h
  run-keeps pid P listed closed keeps (c ∷ cs) s h =
      run-keeps pid P listed closed keeps cs (perform env limit c s).1
        (keeps s.db _ h (perform-Step pid c s (listed s.db h) (closed s.db h)))
