-- ===== src/Orders/Supply/Stock.antt =====
-- The stock of a product, under the two updates that move it.
use soa_hw.Base.{
  ℕ, ◌+◌, ◌≤◌, ◌≡◌, refl, true, Option, none, some, List, arith, ◌==◌, if◌then◌else◌, is_some,
}
use soa_hw.Base.Rows.{find_row, update_rows, find_row-update_rows}
use soa_hw.Store.Schema.{Product}
use soa_hw.Store.Queries.{lower_stock, raise_stock}
use soa_hw.Store.Queries.Checks.{product_id}

module _ {D : Type 0} where
  abbrev stock_of : Option (Product D) → ℕ
  stock_of none = 0
  stock_of (some p) = p.stock

  abbrev pub stock_at : ℕ → List (Product D) → ℕ
  stock_at pid ps = stock_of (find_row product_id pid ps)

  abbrev pub IsListed : ℕ → List (Product D) → Type 0
  IsListed pid ps = is_some (find_row product_id pid ps) ≡ true

  -- Taking `n` units of a product lowers its own stock and no other.
  pub stock_at-lower :
      (pid id n now : ℕ) (ps : List (Product D)) {p : Product D}
      → IsListed pid ps
      → find_row product_id id ps ≡ some p
      → n ≤ p.stock
      → stock_at pid (update_rows product_id id (lower_stock now n) ps)
          + (if id == pid then n else 0)
        ≡ stock_at pid ps
  stock_at-lower pid id n now ps l e h =
      ground (arith, find_row-update_rows product_id pid id (lower_stock now n) ps (λ r. refl))

  pub stock_at-raise :
      (pid id n now : ℕ) (ps : List (Product D))
      → IsListed pid ps
      → stock_at pid (update_rows product_id id (raise_stock now n) ps)
        ≡ stock_at pid ps + (if id == pid then n else 0)
  stock_at-raise pid id n now ps l =
      ground (arith, find_row-update_rows product_id pid id (raise_stock now n) ps (λ r. refl))

  -- An update keeps every product listed.
  pub update_rows-IsListed :
      (pid id : ℕ) (f : Product D → Product D) (ps : List (Product D))
      → ((p : Product D) → (f p).id ≡ p.id)
      → IsListed pid ps
      → IsListed pid (update_rows product_id id f ps)
  update_rows-IsListed pid id f ps keeps l =
      ground (arith, find_row-update_rows product_id pid id f ps keeps)
