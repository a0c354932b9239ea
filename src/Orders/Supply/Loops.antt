-- ===== src/Orders/Supply/Loops.antt =====
-- The loops of a transaction, and the units that they move.
use soa_hw.Base.{ℕ, ◌+◌, ◌≡◌, refl, ◌∙◌, true, List, [], ◌∷◌, arith, ◌==◌, if◌then◌else◌}
use soa_hw.ApiErr.{StockError}
use soa_hw.Store.Schema.{Db, OrderItem, Product}
use soa_hw.Store.Env.{Env}
use soa_hw.Store.Session.{Session, ok}
use soa_hw.Store.Session.Laws.{
  Post, Post-pure, Post-raise, Post-raise_if, Post-or_no_rows, Post-bind, Post-seq, Post-map,
  Post-tx,
}
use soa_hw.Store.Queries.{get_product_by_id_for_update}
use soa_hw.Orders.Types.{Entry, OrderItemInput}
use soa_hw.Orders.Supply.Items.{Added, create_order_item-Added}
use soa_hw.Orders.Loops.{
  collect, refuse_short, take_items, create_items, decrement_all, restore_all,
}
use soa_hw.Orders.Supply.Held.{ordered, is_live, AllHaveOrder}
use soa_hw.Orders.Supply.Stock.{IsListed}
use soa_hw.Orders.Supply.Moves.{Taken, Returned, decrement_stock-Taken, increment_stock-Returned}

module _ {D : Type 0} where
  -- The units of `pid` in the entries of a request.
  pub requested : ℕ → List (Entry D) → ℕ
  requested pid [] = 0
  requested pid (e ∷ es) = (if e.product.id == pid then e.quantity else 0) + requested pid es

  get_product_by_id_for_update-same :
      (id uuid now : ℕ) (db db' : Db D) {p : Product D}
      → get_product_by_id_for_update id uuid now db ≡ ok (p, db')
      → db' ≡ db
  unfolding get_product_by_id_for_update
  get_product_by_id_for_update-same id uuid now db db' h = ground arith

  Taken-trans :
      (pid m n : ℕ) (a b c : Db D) → Taken pid m a b → Taken pid n b c → Taken pid (m + n) a c
  Taken-trans pid m n a b c x y = ground arith

  Returned-trans :
      (pid m n : ℕ) (a b c : Db D)
      → Returned pid m a b
      → Returned pid n b c
      → Returned pid (m + n) a c
  Returned-trans pid m n a b c x y = ground arith

  module _ (env : Env D) (pid : ℕ) where
    refuse_short-same :
        (es : List StockError) (s : Session D) → Post (λ _ s'. s'.db ≡ s.db) (refuse_short env es s)
    unfolding refuse_short
    refuse_short-same [] s = Post-pure _ tt s refl
    refuse_short-same (e ∷ es) s = Post-raise _ _ s

    pub decrement_all-Taken :
        (es : List (Entry D)) (total : D) (s : Session D)
        → IsListed pid s.db.products
        → Post (λ _ s'. Taken pid (requested pid es) s.db s'.db) (decrement_all env es total s)
    unfolding decrement_all requested
    decrement_all-Taken [] total s l = Post-pure _ total s (ground arith)
    decrement_all-Taken (e ∷ es) total s l =
        Post-seq (λ _ s'. Taken pid (if e.product.id == pid then e.quantity else 0) s.db s'.db) _ _
          _ s
          (Post-tx env _ _ s λ s' uuid now a _ h.
            decrement_stock-Taken pid e.product.id e.quantity uuid now s.db s'.db l h)
          λ _ s1 t.
            Post-map _ _ _ (decrement_all-Taken es _ s1 t.listed)
              λ _ s2 u. Taken-trans pid _ _ s.db s1.db s2.db t u

    pub restore_all-Returned :
        (is : List (OrderItem D)) (s : Session D)
        → IsListed pid s.db.products
        → Post (λ _ s'. Returned pid (ordered pid is) s.db s'.db) (restore_all env is s)
    unfolding restore_all ordered
    restore_all-Returned [] s l = Post-pure _ tt s (ground arith)
    restore_all-Returned (i ∷ is) s l =
        Post-seq (λ _ s'. Returned pid (if i.product_id == pid then i.quantity else 0) s.db s'.db) _
          _ _ s
          (Post-tx env _ _ s λ s' uuid now a _ h.
            increment_stock-Returned pid i.product_id i.quantity uuid now s.db s'.db l h)
          λ _ s1 t.
            Post-map _ _ _ (restore_all-Returned is s1 t.listed)
              λ _ s2 u. Returned-trans pid _ _ s.db s1.db s2.db t u

    Added-trans :
        (m n : ℕ) (a b c : Db D) → Added pid m a b → Added pid n b c → Added pid (m + n) a c
    Added-trans m n a b c x y = ground arith

    pub create_items-Added :
        (oid : ℕ) (es : List (Entry D)) (s : Session D)
        → is_live oid s.db.orders ≡ true
        → AllHaveOrder s.db.orders s.db.order_items
        → Post (λ _ s'. Added pid (requested pid es) s.db s'.db) (create_items env oid es s)
    unfolding create_items requested
    create_items-Added oid [] s live closed = Post-pure _ [] s (ground arith)
    create_items-Added oid (e ∷ es) s live closed =
        Post-bind (λ _ s'. Added pid (if e.product.id == pid then e.quantity else 0) s.db s'.db) _ _
          _ s
          (Post-tx env _ _ s λ s' uuid now a _ h.
            create_order_item-Added pid oid e.product.id e.quantity uuid now env.decimal
              e.product.price s.db s'.db live closed h)
          λ i s1 t.
            Post-bind (λ _ s'. Added pid (requested pid es) s1.db s'.db) _ _ _ s1
              (create_items-Added oid es s1 (rw t.orders live) t.closed)
              λ is s2 u. Post-pure _ (i ∷ is) s2 (Added-trans _ _ s.db s1.db s2.db t u)

    -- Looking the products up changes nothing.
    pub collect-same :
        (is : List OrderItemInput) (s : Session D) → Post (λ _ s'. s'.db ≡ s.db) (collect env is s)
    unfolding collect
    collect-same [] s = Post-pure _ _ s refl
    collect-same (i ∷ is) s =
        Post-bind (λ _ s1. s1.db ≡ s.db) _ _ _ s
          (Post-or_no_rows _ _ _ s (
            Post-tx env _ _ s λ s1 uuid now p _ h.
              get_product_by_id_for_update-same i.product_id uuid now s.db s1.db h))
          λ p s1 h1.
            Post-seq (λ _ s2. s2.db ≡ s.db) _ _ _ s1 (Post-raise_if _ _ _ s1 λ _. h1)
              λ _ s2 h2.
                Post-bind (λ _ s3. s3.db ≡ s2.db) _ _ _ s2 (collect-same is s2)
                  λ r s3 h3. Post-pure _ _ s3 (h3 ∙ h2)

    pub take_items-Taken :
        (is : List OrderItemInput) (s : Session D)
        → IsListed pid s.db.products
        → Post (λ r s'. Taken pid (requested pid r.0) s.db s'.db) (take_items env is s)
    unfolding take_items
    take_items-Taken is s l =
        Post-bind (λ _ s1. s1.db ≡ s.db) _ _ _ s (collect-same is s)
          λ found s1 h1.
            Post-seq (λ _ s2. s2.db ≡ s.db) _ _ _ s1
              (Post-map _ _ _ (refuse_short-same found.1 s1) λ _ s2 h2. h2 ∙ h1)
              λ _ s2 h2.
                Post-bind (λ _ s3. Taken pid (requested pid found.0) s.db s3.db) _ _ _ s2
                  (rw (← h2) (decrement_all-Taken found.0 _ s2 (rw h2 l)))
                  λ total s3 t. Post-pure _ _ s3 t
