-- ===== src/Orders/Conserve/Cancel/Room.antt =====
-- Units put back on stock by `Cancel` of internal/service/orders.go, where their columns have room.
use soa_hw.Base.{ℕ, false, ◌+◌, ◌≤◌, ◌≡◌, ◌∙◌, refl, arith, List, [], ◌∷◌, Option-cases, inl, inr}
use soa_hw.Base.Rows.{find_row, update_rows, find_row-update_rows}
use soa_hw.Store.Schema.{Db, OrderItem}
use soa_hw.Store.Env.{Env}
use soa_hw.Store.Session.{Session, ok}
use soa_hw.Store.Session.Success.{Gives, Gives-pure, Gives-seq, Gives-map, Gives-tx}
use soa_hw.Store.Queries.{increment_stock, raise_stock}
use soa_hw.Store.Queries.Checks.{product_id}
use soa_hw.Orders.Loops.{restore_all}
use soa_hw.Orders.Supply.Stock.{stock_at, IsListed}
use soa_hw.Orders.Supply.Held.{ordered}

module _ {D : Type 0} where
  -- The stock of no product leaves its column when the items are put back.
  abbrev pub HasRoom : List (OrderItem D) → Db D → Type 0
  HasRoom is db =
      (pid : ℕ) → IsListed pid db.products → stock_at pid db.products + ordered pid is ≤ 2147483647

  -- The same, with `more` units of each product to come.
  abbrev pub HasRoomFor : (ℕ → ℕ) → List (OrderItem D) → Db D → Type 0
  HasRoomFor more is db =
      (pid : ℕ)
      → IsListed pid db.products
      → stock_at pid db.products + ordered pid is + more pid ≤ 2147483647

  -- One item put back leaves room for the others.
  next_room :
      (more : ℕ → ℕ) (i : OrderItem D) (is : List (OrderItem D)) (now : ℕ) (db : Db D)
      → HasRoomFor more (i ∷ is) db
      → HasRoomFor more is (record db {
        products = update_rows product_id i.product_id (raise_stock now i.quantity) db.products;
      })
  unfolding ordered
  next_room more i is now db room pid l = ground (
    arith,
    room pid,
    find_row-update_rows product_id pid i.product_id (raise_stock now i.quantity) db.products
        (λ r. refl),
  )

  module _ (env : Env D) (good : (k : ℕ) → env.fault k ≡ false) where
    restored :
        (more : ℕ → ℕ) (i : OrderItem D) (is : List (OrderItem D)) (uuid now : ℕ) (db : Db D)
        → HasRoomFor more (i ∷ is) db
        → (db' : Db D) × (increment_stock i.product_id i.quantity uuid now db ≡ ok (tt, db'))
          × (db'.orders ≡ db.orders)
          × HasRoomFor more is db'
    unfolding increment_stock ordered
    restored more i is uuid now db room =
        elim (Option-cases (find_row product_id i.product_id db.products)) [
          | inl missing ↦
              (db, rw (missing, increment_stock) refl, refl, λ pid l. ground (arith, room pid l))
          | inr (p, found) ↦ (
            record db {
              products =
                  update_rows product_id i.product_id (raise_stock now i.quantity) db.products;
            },
            ground (arith, found, room i.product_id),
            refl,
            next_room more i is now db room,
          )
        ]

    pub restore_all-Gives :
        (more : ℕ → ℕ) (is : List (OrderItem D)) (s : Session D)
        → s.aborted ≡ false
        → HasRoomFor more is s.db
        → Gives
            (λ _ t. (t.aborted ≡ false) × (t.db.orders ≡ s.db.orders) × HasRoomFor more [] t.db)
            (restore_all env is s)
    unfolding restore_all ordered
    restore_all-Gives more [] s run room = Gives-pure _ tt s (run, refl, room)
    restore_all-Gives more (i ∷ is) s run room =
        Gives-seq
          (λ _ t. (t.aborted ≡ false) × (t.db.orders ≡ s.db.orders) × HasRoomFor more is t.db) _ _ _
          s
          (Gives-tx env good _ _ s run λ uuid now.
            let (db', e, orders, room') = restored more i is uuid now s.db room in
            (tt, db', e, λ t same run'. (run', rw same orders, rw same room')))
          λ _ t h.
            Gives-map _ _ _ (restore_all-Gives more is t h.0 h.2) λ _ u k. (k.0, k.1 ∙ h.1, k.2)
