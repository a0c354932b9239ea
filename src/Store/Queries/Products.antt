-- ===== src/Store/Queries/Products.antt =====
-- internal/db/queries/products.sql
use soa_hw.Base.{ℕ, ◌+◌, ◌-◌, none, some, ltb, if◌then◌else◌}
use soa_hw.Base.Rows.{find_row, update_rows}
use soa_hw.Store.Schema.{Product}
use soa_hw.Store.Session.{Query, ok, err, constraint, check_violation}
use soa_hw.Store.Queries.Checks.{product_id, one, int4, ◌>>=◌, ◌>>◌}

module _ {D : Type 0} where
  unfoldable pub get_product_by_id : ℕ → Query D (Product D)
  get_product_by_id id uuid now db = do p ← one (find_row product_id id db.products); ok (p, db)

  -- The row lock has no effect on one session.
  unfoldable pub get_product_by_id_for_update : ℕ → Query D (Product D)
  get_product_by_id_for_update id uuid now db = do
    p ← one (find_row product_id id db.products)
    ok (p, db)

  -- The row of an UPDATE, with what the trigger set_updated_at writes.
  abbrev pub with_stock : ℕ → ℕ → Product D → Product D
  with_stock now stock p = record p { stock = stock; updated_at = now }

  abbrev pub lower_stock : ℕ → ℕ → Product D → Product D
  lower_stock now quantity p = with_stock now (p.stock - quantity) p

  abbrev pub raise_stock : ℕ → ℕ → Product D → Product D
  raise_stock now quantity p = with_stock now (p.stock + quantity) p

  -- CHECK (stock >= 0) fails the statement. An UPDATE of no row succeeds.
  unfoldable pub decrement_stock : ℕ → ℕ → Query D (Unit {0})
  decrement_stock id quantity uuid now db = elim (find_row product_id id db.products) [
    | none ↦ ok (tt, db)
    | some p ↦
        if ltb p.stock quantity
        then err (constraint check_violation)
        else ok (
          tt,
          record db { products = update_rows product_id id (lower_stock now quantity) db.products },
        )
  ]

  unfoldable pub increment_stock : ℕ → ℕ → Query D (Unit {0})
  increment_stock id quantity uuid now db = elim (find_row product_id id db.products) [
    | none ↦ ok (tt, db)
    | some p ↦ do
      int4 (p.stock + quantity)
      ok (
        tt,
        record db { products = update_rows product_id id (raise_stock now quantity) db.products },
      )
  ]
