-- ===== src/Orders/Supply/Moves.antt =====
-- What each statement of a transaction does to one product's units, if it succeeds.
use soa_hw.Base.{ℕ, ◌+◌, ◌≡◌, refl, arith, ◌==◌, if◌then◌else◌, Option-cases, inl, inr}
use soa_hw.Base.Rows.{find_row}
use soa_hw.Store.Schema.{Db}
use soa_hw.Store.Session.{ok}
use soa_hw.Store.Queries.{decrement_stock, increment_stock, lower_stock, raise_stock}
use soa_hw.Store.Queries.Checks.{product_id}
use soa_hw.Orders.Supply.Stock.{
  stock_at, IsListed, stock_at-lower, stock_at-raise, update_rows-IsListed,
}

module _ {D : Type 0} where
  -- Two databases that differ in products only.
  pub record SameButProducts (db db' : Db D) : Type 0 where
    pub orders : db'.orders ≡ db.orders
    pub order_items : db'.order_items ≡ db.order_items
    pub promo_codes : db'.promo_codes ≡ db.promo_codes

  -- `n` units of the product are gone from the stock, and nothing but products has changed.
  pub record Taken (pid n : ℕ) (db db' : Db D) : Type 0 where
    pub stock : stock_at pid db'.products + n ≡ stock_at pid db.products
    pub listed : IsListed pid db'.products
    pub rest : SameButProducts db db'

  -- `n` units are back on stock.
  pub record Returned (pid n : ℕ) (db db' : Db D) : Type 0 where
    pub stock : stock_at pid db'.products ≡ stock_at pid db.products + n
    pub listed : IsListed pid db'.products
    pub rest : SameButProducts db db'

  pub decrement_stock-Taken :
      (pid id n uuid now : ℕ) (db db' : Db D) {a : Unit {0}}
      → IsListed pid db.products
      → decrement_stock id n uuid now db ≡ ok (a, db')
      → Taken pid (if id == pid then n else 0) db db'
  unfolding decrement_stock
  decrement_stock-Taken pid id n uuid now db db' l h =
      elim (Option-cases (find_row product_id id db.products)) [
        | inl e ↦ ground arith
        | inr (p, e) ↦ ground (
          arith,
          stock_at-lower pid id n now db.products l e,
          update_rows-IsListed pid id (lower_stock now n) db.products (λ p. refl) l,
        )
      ]

  pub increment_stock-Returned :
      (pid id n uuid now : ℕ) (db db' : Db D) {a : Unit {0}}
      → IsListed pid db.products
      → increment_stock id n uuid now db ≡ ok (a, db')
      → Returned pid (if id == pid then n else 0) db db'
  unfolding increment_stock
  increment_stock-Returned pid id n uuid now db db' l h =
      elim (Option-cases (find_row product_id id db.products)) [
        | inl e ↦ ground arith
        | inr (p, e) ↦ ground (
          arith,
          stock_at-raise pid id n now db.products l,
          update_rows-IsListed pid id (raise_stock now n) db.products (λ p. refl) l,
        )
      ]
