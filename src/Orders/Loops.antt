-- ===== src/Orders/Loops.antt =====
-- The loops of `Create`, `Update` and `Cancel` in internal/service/orders.go, inside a transaction.
use soa_hw.Base.{ℕ, Bool, true, false, not, List, [], ◌∷◌, ◌++◌, ltb, if◌then◌else◌}
use soa_hw.ApiErr.{product_not_found, product_inactive, insufficient_stock, StockError, items}
use soa_hw.Store.Schema.{Product, ProductStatus, active, inactive, archived, OrderItem}
use soa_hw.Store.Env.{Env}
use soa_hw.Store.Session.{Action, or_no_rows, raise, raise_if, pure, tx, ◌>>=◌, ◌>>◌}
use soa_hw.Store.Queries.{
  get_product_by_id_for_update, decrement_stock, increment_stock, create_order_item,
}
use soa_hw.Orders.Types.{OrderItemInput, Entry, app_error, app_error_with}

abbrev pub is_active : ProductStatus → Bool
is_active active = true
is_active inactive = false
is_active archived = false

module _ {D : Type 0} where
  abbrev pub entry_of : Product D → OrderItemInput → Entry D
  entry_of p i = record { product = p; quantity = i.quantity }

  -- What `if p.Stock < item.Quantity` appends.
  abbrev pub shortage : Product D → OrderItemInput → List StockError
  shortage p i =
      if ltb p.stock i.quantity
      then record { product_id = i.product_id; requested = i.quantity; available = p.stock } ∷ []
      else []

  module _ (env : Env D) where
    open env use {decimal}
    open decimal use {zero, add, mul, new_from_int}

    -- `for _, item := range in.Items`: the entries and the stock errors.
    unfoldable pub collect : List OrderItemInput → Action D (List (Entry D) × List StockError)
    collect [] = pure ([], [])
    collect (i ∷ is) = do
      p ←
          or_no_rows (tx env (get_product_by_id_for_update i.product_id))
            (app_error product_not_found)
      raise_if (not (is_active p.status)) (app_error product_inactive)
      rest ← collect is
      pure (entry_of p i ∷ rest.0, shortage p i ++ rest.1)

    -- `if len(stockErrors) > 0`
    unfoldable pub refuse_short : List StockError → Action D (Unit {0})
    refuse_short [] = pure tt
    refuse_short (e ∷ es) = raise (app_error_with insufficient_stock (items (e ∷ es)))

    abbrev pub line_total : Entry D → D
    line_total e = mul e.product.price (new_from_int e.quantity)

    -- `total := decimal.Zero; for i := range entries`
    unfoldable pub decrement_all : List (Entry D) → D → Action D D
    decrement_all [] total = pure total
    decrement_all (e ∷ es) total = do
      tx env (decrement_stock e.product.id e.quantity)
      decrement_all es (add total (line_total e))

    unfoldable pub create_items : ℕ → List (Entry D) → Action D (List (OrderItem D))
    create_items oid [] = pure []
    create_items oid (e ∷ es) = do
      i ← tx env (create_order_item decimal oid e.product.id e.quantity e.product.price)
      rest ← create_items oid es
      pure (i ∷ rest)

    unfoldable pub restore_all : List (OrderItem D) → Action D (Unit {0})
    restore_all [] = pure tt
    restore_all (i ∷ is) = do tx env (increment_stock i.product_id i.quantity); restore_all is

    -- What `Create` and `Update` do with their items: the entries, and the sum of their prices.
    unfoldable pub take_items : List OrderItemInput → Action D (List (Entry D) × D)
    take_items is = do
      found ← collect is
      refuse_short found.1
      total ← decrement_all found.0 zero
      pure (found.0, total)
