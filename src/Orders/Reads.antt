-- ===== src/Orders/Reads.antt =====
-- What the methods read and check before their transactions.
use soa_hw.Base.{ℕ, String, true, false, ◌≡◌, refl, ltb, some, arith, if_cases}
use soa_hw.Base.Rows.{find_row}
use soa_hw.Store.Schema.{Db, Order, OperationType, UserOperation}
use soa_hw.Store.Env.{Env}
use soa_hw.Store.Session.{Session, Action, Result, ok, err, no_rows}
use soa_hw.Store.Session.Laws.{
  Post, Post-pure, Post-bind, Post-seq, Post-or_no_rows, Post-raise_if, Post-pool,
}
use soa_hw.Store.Session.Atomic.{
  IsReadOnly, Post-Keeps, Keeps, Keeps-lem, Keeps-bind, Keeps-seq, Keeps-raise, Keeps-attempt,
  Keeps-time_now, Keeps-or_no_rows, Keeps-raise_if, Keeps-pool, Keeps-pure,
}
use soa_hw.Store.Queries.{get_order_by_id, get_order_items, get_last_user_operation, is_active}
use soa_hw.Store.Queries.Checks.{order_id}
use soa_hw.Orders.Types.{UpdateOrderInput, check_rate_limit, answered, too_soon, is_foreign}
use soa_hw.Orders.Service.{get, cancel_check, update_check, is_created}

module _ {D : Type 0} where
  pub get_order_by_id-IsReadOnly : (id : ℕ) → IsReadOnly {D = D} (get_order_by_id id)
  unfolding get_order_by_id
  get_order_by_id-IsReadOnly id uuid now db db' a h = ground arith

  pub get_order_by_id-found :
      (id uuid now : ℕ) (db db' : Db D) {o : Order D}
      → get_order_by_id id uuid now db ≡ ok (o, db')
      → (db' ≡ db) × (find_row order_id id db.orders ≡ some o)
  unfolding get_order_by_id
  get_order_by_id-found id uuid now db db' h = ground arith

  get_last_user_operation-IsReadOnly :
      (id : ℕ) (t : OperationType) → IsReadOnly {D = D} (get_last_user_operation id t)
  unfolding get_last_user_operation
  get_last_user_operation-IsReadOnly id t uuid now db db' a h = ground arith

  module _ (env : Env D) (limit : ℕ) where
    Keeps-too_soon :
        (db : Db D) (until now : ℕ) (s : Session D)
        → s.db ≡ db
        → Keeps db (too_soon env until now s)
    unfolding too_soon
    Keeps-too_soon db until now s h =
        if_cases (λ (m : Action D (Unit {0})). Keeps db (m s)) (ltb now until)
          (λ _. Keeps-bind db _ _ s (Keeps-time_now env db s h) λ _ s1 h1. Keeps-raise _ db _ s1 h1)
          λ _. Keeps-pure db tt s h

    Keeps-answered :
        (db : Db D) (r : Result D UserOperation) (s : Session D)
        → s.db ≡ db
        → Keeps db (answered env limit r s)
    unfolding answered
    Keeps-answered db (err no_rows) s h = Keeps-pure db tt s h
    Keeps-answered db (err e) s h = Keeps-raise _ db _ s h
    Keeps-answered db (ok op) s h =
        Keeps-bind db _ _ s (Keeps-time_now env db s h) λ _ s1 h1. Keeps-too_soon db _ _ s1 h1

    -- The rate limit only reads.
    pub Keeps-check_rate_limit :
        (db : Db D) (user : ℕ) (t : OperationType) (s : Session D)
        → s.db ≡ db
        → Keeps db (check_rate_limit env limit user t s)
    unfolding check_rate_limit
    Keeps-check_rate_limit db user t s h =
        Keeps-bind db _ _ s
          (Keeps-attempt db _ s
            (Keeps-pool env db _ s (get_last_user_operation-IsReadOnly user t) h))
          λ r s1 h1. Keeps-answered db r s1 h1

    pub Keeps-update_check :
        (db : Db D) (i : UpdateOrderInput) (s : Session D)
        → s.db ≡ db
        → Keeps db (update_check env limit i s)
    unfolding update_check
    Keeps-update_check db i s h =
        Keeps-bind db _ _ s
          (Keeps-or_no_rows db _ _ s
            (Keeps-pool env db _ s (get_order_by_id-IsReadOnly i.order_id) h))
          λ o s1 h1. Keeps-seq db _ _ s1 (Keeps-raise_if db _ _ s1 h1) λ _ s2 h2.
            Keeps-seq db _ _ s2 (Keeps-raise_if db _ _ s2 h2) λ _ s3 h3.
              Keeps-seq db _ _ s3 (Keeps-check_rate_limit db _ _ s3 h3)
                λ _ s4 h4. Keeps-pure db o s4 h4

  get_order_items-IsReadOnly : (id : ℕ) → IsReadOnly {D = D} (get_order_items id)
  unfolding get_order_items
  get_order_items-IsReadOnly id uuid now db db' a h = ground arith

  module _ (env : Env D) where
    -- `Get` only reads.
    pub get-same :
        (id caller : ℕ) (role : String) (s : Session D) → (get env id caller role s).1.db ≡ s.db
    unfolding get
    get-same id caller role s = Keeps-lem s.db _ (
        Keeps-bind s.db _ _ s
          (Keeps-or_no_rows s.db _ _ s
            (Keeps-pool env s.db _ s (get_order_by_id-IsReadOnly id) refl))
          λ o s1 h1. Keeps-seq s.db _ _ s1 (Keeps-raise_if s.db _ _ s1 h1) λ _ s2 h2.
            Keeps-bind s.db _ _ s2 (Keeps-pool env s.db _ s2 (get_order_items-IsReadOnly id) h2)
              λ is s3 h3. Keeps-pure s.db _ s3 h3)

    pub Keeps-cancel_check :
        (db : Db D) (id caller : ℕ) (role : String) (s : Session D)
        → s.db ≡ db
        → Keeps db (cancel_check env id caller role s)
    unfolding cancel_check
    Keeps-cancel_check db id caller role s h =
        Keeps-bind db _ _ s
          (Keeps-or_no_rows db _ _ s (Keeps-pool env db _ s (get_order_by_id-IsReadOnly id) h))
          λ o s1 h1. Keeps-seq db _ _ s1 (Keeps-raise_if db _ _ s1 h1) λ _ s2 h2.
            Keeps-seq db _ _ s2 (Keeps-raise_if db _ _ s2 h2) λ _ s3 h3. Keeps-pure db o s3 h3

    -- What `Cancel` knows of the order when its transaction begins.
    pub Post-cancel_check :
        (id caller : ℕ) (role : String) (s : Session D)
        → Post
            (λ o s'.
              (s'.db ≡ s.db)
              × (find_row order_id id s.db.orders ≡ some o)
              × (is_foreign role caller o ≡ false)
              × (is_active o.status ≡ true))
            (cancel_check env id caller role s)
    unfolding cancel_check
    Post-cancel_check id caller role s =
        Post-bind (λ o s1. (s1.db ≡ s.db) × (find_row order_id id s.db.orders ≡ some o)) _ _ _ s
          (Post-or_no_rows _ _ _ s
            (Post-pool env _ _ s λ s1 uuid now o h. get_order_by_id-found id uuid now s.db s1.db h))
          λ o s1 p.
            Post-seq (λ _ s2. (s2.db ≡ s.db) × (is_foreign role caller o ≡ false)) _ _ _ s1
              (Post-raise_if _ _ _ s1 λ own. (p.0, own))
              λ _ s2 q.
                Post-seq (λ _ s3. (s3.db ≡ s.db) × (is_active o.status ≡ true)) _ _ _ s2
                  (Post-raise_if _ _ _ s2 λ act. (q.0, ground arith))
                  λ _ s3 r. Post-pure _ o s3 (r.0, p.1, q.1, r.1)

    -- What `Update` knows of the order when its transaction begins.
    pub Post-update_check :
        (limit : ℕ) (i : UpdateOrderInput) (s : Session D)
        → Post
            (λ o s'.
              (s'.db ≡ s.db)
              × (find_row order_id i.order_id s.db.orders ≡ some o)
              × (is_foreign i.caller_role i.caller_id o ≡ false)
              × (is_created o.status ≡ true))
            (update_check env limit i s)
    unfolding update_check
    Post-update_check limit i s =
        Post-bind (λ o s1. (s1.db ≡ s.db) × (find_row order_id i.order_id s.db.orders ≡ some o)) _ _
          _ s
          (Post-or_no_rows _ _ _ s (
            Post-pool env _ _ s
              λ s1 uuid now o h. get_order_by_id-found i.order_id uuid now s.db s1.db h))
          λ o s1 p.
            Post-seq (λ _ s2. (s2.db ≡ s.db) × (is_foreign i.caller_role i.caller_id o ≡ false)) _ _
              _ s1 (Post-raise_if _ _ _ s1 λ own. (p.0, own))
              λ _ s2 q.
                Post-seq (λ _ s3. (s3.db ≡ s.db) × (is_created o.status ≡ true)) _ _ _ s2
                  (Post-raise_if _ _ _ s2 λ act. (q.0, ground arith))
                  λ _ s3 r.
                    Post-seq (λ _ s4. s4.db ≡ s.db) _ _ _ s3
                      (Post-Keeps s.db _
                        (Keeps-check_rate_limit env limit s.db i.caller_id _ s3 r.0))
                      λ _ s4 h. Post-pure _ o s4 (h, p.1, q.1, r.1)
