-- ===== src/Orders/Supply/Held.antt =====
-- The units of a product that the items of orders hold.
use mathlib.Core.Option
use soa_hw.Base.{
  ℕ, ◌+◌, ◌≡◌, refl, ap, Bool, true, false, not, Option, none, some, List, [], ◌∷◌, arith, ◌==◌,
  if◌then◌else◌, is_some,
}
use soa_hw.Base.Rows.{find_row, update_rows, filter_rows, find_row-update_rows}
use soa_hw.Store.Schema.{Order, OrderItem, OrderStatus, canceled}
use soa_hw.Store.Queries.{with_status, is_item_of}
use soa_hw.Store.Queries.Orders.{order_by_id, insert_by_id}
use soa_hw.Store.Queries.Checks.{order_id}

abbrev pub is_canceled : OrderStatus → Bool
is_canceled canceled = true
is_canceled _ = false

module _ {D : Type 0} where
  abbrev live_row : Option (Order D) → Bool
  live_row none = false
  live_row (some o) = not (is_canceled o.status)

  -- The order is there and not canceled.
  abbrev pub is_live : ℕ → List (Order D) → Bool
  is_live oid os = live_row (find_row order_id oid os)

  -- The units of `pid` in a list of items.
  unfoldable pub ordered : ℕ → List (OrderItem D) → ℕ
  ordered pid [] = 0
  ordered pid (i ∷ is) = (if i.product_id == pid then i.quantity else 0) + ordered pid is

  -- The units of `pid` in the items of the orders that are not canceled.
  unfoldable pub held : ℕ → List (Order D) → List (OrderItem D) → ℕ
  held pid os [] = 0
  held pid os (i ∷ is) =
      (if is_live i.order_id os then if i.product_id == pid then i.quantity else 0 else 0)
      + held pid os is

  -- REFERENCES orders(id)
  abbrev pub AllHaveOrder : List (Order D) → List (OrderItem D) → Type 0
  AllHaveOrder os [] = Unit
  AllHaveOrder os (i ∷ is) = (is_some (find_row order_id i.order_id os) ≡ true) × AllHaveOrder os is

  ordered-insert_by_id :
      (pid : ℕ) (i : OrderItem D) (is : List (OrderItem D))
      → ordered pid (insert_by_id i is) ≡ ordered pid (i ∷ is)
  unfolding ordered insert_by_id
  ordered-insert_by_id pid i [] = refl
  ordered-insert_by_id pid i (j ∷ js) = ground (arith, ordered-insert_by_id pid i js)

  -- Sorting the items changes no sum.
  pub ordered-order_by_id :
      (pid : ℕ) (is : List (OrderItem D)) → ordered pid (order_by_id is) ≡ ordered pid is
  unfolding ordered order_by_id
  ordered-order_by_id pid [] = refl
  ordered-order_by_id pid (i ∷ is) =
      ground (arith, ordered-insert_by_id pid i (order_by_id is), ordered-order_by_id pid is)

  -- A new order holds nothing yet.
  pub held-new_order :
      (pid : ℕ) (o : Order D) (os : List (Order D)) (is : List (OrderItem D))
      → find_row order_id o.id os ≡ none
      → AllHaveOrder os is
      → held pid (o ∷ os) is ≡ held pid os is
  unfolding held find_row
  held-new_order pid o os [] fresh closed = refl
  held-new_order pid o os (i ∷ is) fresh closed =
      ground (arith, held-new_order pid o os is fresh closed.1)

  live_row-map :
      (f : Order D → Order D) (x : Option (Order D))
      → ((o : Order D) → (f o).status ≡ o.status)
      → live_row (Option.map f x) ≡ live_row x
  live_row-map f none status = refl
  live_row-map f (some o) status = ap (λ t. not (is_canceled t)) (status o)

  pub is_live-update_rows :
      (j k : ℕ) (f : Order D → Order D) (os : List (Order D))
      → ((o : Order D) → (f o).id ≡ o.id)
      → ((o : Order D) → (f o).status ≡ o.status)
      → is_live j (update_rows order_id k f os) ≡ is_live j os
  is_live-update_rows j k f os id status = ground (
    arith,
    find_row-update_rows order_id j k f os id,
    live_row-map f (find_row order_id j os) status,
  )

  -- An update that keeps ids, and cancels and revives nothing, moves no units.
  pub held-update_rows :
      (pid k : ℕ) (f : Order D → Order D) (os : List (Order D)) (is : List (OrderItem D))
      → ((o : Order D) → (f o).id ≡ o.id)
      → ((o : Order D) → (f o).status ≡ o.status)
      → held pid (update_rows order_id k f os) is ≡ held pid os is
  unfolding held
  held-update_rows pid k f os [] id status = refl
  held-update_rows pid k f os (i ∷ is) id status = ground (
    arith,
    is_live-update_rows i.order_id k f os id status,
    held-update_rows pid k f os is id status,
  )

  -- Canceling a live order gives up the units of its items.
  pub held-cancel :
      (pid k now : ℕ) (os : List (Order D)) (is : List (OrderItem D))
      → is_live k os ≡ true
      → held pid (update_rows order_id k (with_status now canceled) os) is
          + ordered pid (filter_rows (is_item_of k) is)
        ≡ held pid os is
  unfolding held ordered filter_rows
  held-cancel pid k now os [] live = refl
  held-cancel pid k now os (i ∷ is) live = ground (
    arith,
    find_row-update_rows order_id i.order_id k (with_status now canceled) os (λ o. refl),
    held-cancel pid k now os is live,
  )

  -- So does deleting the items of a live order.
  pub held-delete :
      (pid k : ℕ) (os : List (Order D)) (is : List (OrderItem D))
      → is_live k os ≡ true
      → held pid os (filter_rows (λ i. not (is_item_of k i)) is)
          + ordered pid (filter_rows (is_item_of k) is)
        ≡ held pid os is
  unfolding held ordered filter_rows
  held-delete pid k os [] live = refl
  held-delete pid k os (i ∷ is) live = ground (arith, held-delete pid k os is live)

  -- An update of orders leaves every item its order.
  pub AllHaveOrder-update_rows :
      (k : ℕ) (f : Order D → Order D) (os : List (Order D)) (is : List (OrderItem D))
      → ((o : Order D) → (f o).id ≡ o.id)
      → AllHaveOrder os is
      → AllHaveOrder (update_rows order_id k f os) is
  AllHaveOrder-update_rows k f os [] id h = tt
  AllHaveOrder-update_rows k f os (i ∷ is) id h = (
    ground (arith, h.0, find_row-update_rows order_id i.order_id k f os id),
    AllHaveOrder-update_rows k f os is id h.1,
  )

  pub AllHaveOrder-new_order :
      (o : Order D) (os : List (Order D)) (is : List (OrderItem D))
      → AllHaveOrder os is
      → AllHaveOrder (o ∷ os) is
  unfolding find_row
  AllHaveOrder-new_order o os [] h = tt
  AllHaveOrder-new_order o os (i ∷ is) h = ground (arith, AllHaveOrder-new_order o os is h.1)

  pub AllHaveOrder-filter_rows :
      (test : OrderItem D → Bool) (os : List (Order D)) (is : List (OrderItem D))
      → AllHaveOrder os is
      → AllHaveOrder os (filter_rows test is)
  unfolding filter_rows
  AllHaveOrder-filter_rows test os [] h = tt
  AllHaveOrder-filter_rows test os (i ∷ is) h =
      ground (arith, AllHaveOrder-filter_rows test os is h.1)
