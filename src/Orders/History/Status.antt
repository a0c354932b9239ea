-- ===== src/Orders/History/Status.antt =====
-- What happens to each order, and to each user's active orders, over any calls.
use soa_hw.Base.{
  ℕ, ◌≤◌, ◌≡◌, refl, ◌∙◌, ap, inl, inr, Bool-cases, ==_iff, true, ◌==◌, some, List, arith,
}
use soa_hw.Base.Rows.{find_row, update_rows, find_row-update_rows}
use soa_hw.Base.Keys.{
  count_rows, IsKeyed, update_rows-IsKeyed, count_rows-update_rows, count_rows-first_row,
}
use soa_hw.Store.Schema.{Db, Order, OrderStatus, canceled}
use soa_hw.Store.Env.{Env}
use soa_hw.Store.Session.{Session}
use soa_hw.Store.Queries.{is_active, is_active_of}
use soa_hw.Store.Queries.Checks.{order_id}
use soa_hw.Orders.Supply.{Accounts}
use soa_hw.Orders.History.{Call, run}
use soa_hw.Orders.History.Steps.{Step, same, created, updated, run-keeps}
use soa_hw.Orders.History.Units.{Step-Accounts}

-- An order that was active may get canceled; no status changes otherwise.
pub data Transition (s s' : OrderStatus) : Type 0 where
  stays : s' ≡ s → Transition s s'
  cancels : is_active s ≡ true → s' ≡ canceled → Transition s s'

Transition-trans : (s t u : OrderStatus) → Transition s t → Transition t u → Transition s u
Transition-trans s t u (stays e) (stays f) = stays (f ∙ e)
Transition-trans s t u (stays e) (cancels a f) = cancels (rw e at a) f
Transition-trans s t u (cancels a e) (stays f) = cancels a (f ∙ e)
Transition-trans s t u (cancels a e) (cancels b f) = cancels a f

module _ {D : Type 0} where
  -- The order is still there, its owner the same, and its status has changed as it may.
  pub record Kept (id : ℕ) (o : Order D) (db : Db D) : Type 0 where
    pub order : Order D
    pub found : find_row order_id id db.orders ≡ some order
    pub owner : order.user_id ≡ o.user_id
    pub status : Transition o.status order.status

  pub Kept-trans :
      (id : ℕ) (o : Order D) (db db' : Db D) (k : Kept id o db)
      → Kept id k.order db'
      → Kept id o db'
  Kept-trans id o db db' k k' = record {
    order = k'.order;
    found = k'.found;
    owner = k'.owner ∙ k.owner;
    status = Transition-trans _ _ _ k.status k'.status;
  }

  -- An update of the order `k`, which is `p`.
  updated-Kept :
      (id k : ℕ) (f : Order D → Order D) (db db' : Db D) (o p : Order D)
      → ((o : Order D) → (f o).id ≡ o.id)
      → ((o : Order D) → (f o).user_id ≡ o.user_id)
      → find_row order_id id db.orders ≡ some o
      → find_row order_id k db.orders ≡ some p
      → Transition p.status (f p).status
      → db'.orders ≡ update_rows order_id k f db.orders
      → Kept id o db'
  updated-Kept id k f db db' o p keeps owner e found t u =
      let now =
        ap (find_row order_id id) u ∙ find_row-update_rows order_id id k f db.orders keeps in
      elim (Bool-cases (k == id)) [
        | inl here ↦
            let at_k : find_row order_id k db.orders ≡ some o = rw ((==_iff k id).0 here) e in
            let same : o ≡ p = cc in
            record { order = f o; found = now ∙ rw (here, e); owner = owner o; status = rw same t }
        | inr other ↦ record {
          order = o;
          found = now ∙ rw (other, e);
          owner = refl;
          status = stays refl;
        }
      ]

  pub Step-Kept :
      (pid id : ℕ) (o : Order D) (db db' : Db D)
      → find_row order_id id db.orders ≡ some o
      → Step pid db db'
      → Kept id o db'
  unfolding find_row
  Step-Kept pid id o db db' e (same u) = record {
    order = o;
    found = rw u e;
    owner = refl;
    status = stays refl;
  }
  Step-Kept pid id o db db' e (created i c) = record {
    order = o;
    found = rw c.orders (ground (arith, c.is_new.fresh, ==_iff c.order.id id));
    owner = refl;
    status = stays refl;
  }
  Step-Kept pid id o db db' e (updated k p found act u) =
      updated-Kept id k _ db db' o p (λ o. refl) (λ o. refl) e found (stays refl) u.orders
  Step-Kept pid id o db db' e (Step.canceled k p found act c) =
      updated-Kept id k _ db db' o p (λ o. refl) (λ o. refl) e found (cancels act refl) c.orders

  -- In a shop that lists some product and where all items have their order: an order that is there
  -- before any calls of Create, Update, Cancel and Get is there after them, with the same owner,
  -- and with its old status or, if that was CREATED or PAYMENT_PENDING, with its old status or
  -- CANCELED.
  pub run-Kept :
      (env : Env D) (limit pid n id : ℕ) (o : Order D) (cs : List Call) (s : Session D)
      → Accounts pid n s.db
      → find_row order_id id s.db.orders ≡ some o
      → Kept id o (run env limit cs s).db
  run-Kept env limit pid n id o cs s acc e =
      let P : Db D → Type 0 = λ db. Accounts pid n db × Kept id o db in
      let done : P (run env limit cs s).db =
        run-keeps env limit pid P (λ db h. h.0.listed) (λ db h. h.0.closed)
          (λ db db' h st. (
            Step-Accounts pid n db db' h.0 st,
            Kept-trans id o db db' h.1 (Step-Kept pid id _ db db' h.1.found st),
          ))
          cs s (acc, record { order = o; found = e; owner = refl; status = stays refl }) in
      done.1

  -- Order ids are distinct, and the user has one active order at most.
  pub record OneActive (user : ℕ) (db : Db D) : Type 0 where
    pub keyed : IsKeyed order_id db.orders
    pub active : count_rows (is_active_of user) db.orders ≤ 1

  -- An update of the order `k`, which is `p`, that makes it active for nobody.
  updated-OneActive :
      (user k : ℕ) (f : Order D → Order D) (db db' : Db D) (p : Order D)
      → ((o : Order D) → (f o).id ≡ o.id)
      → find_row order_id k db.orders ≡ some p
      → (is_active_of user (f p) ≡ true → is_active_of user p ≡ true)
      → db'.orders ≡ update_rows order_id k f db.orders
      → OneActive user db
      → OneActive user db'
  updated-OneActive user k f db db' p keeps found back u h = record {
    keyed = rw u (update_rows-IsKeyed order_id k f db.orders keeps h.keyed);
    active = rw u (
        ground (
          arith,
          h.active,
          back,
          count_rows-update_rows order_id (is_active_of user) k f db.orders {r = p} h.keyed found,
        ));
  }

  pub Step-OneActive :
      (pid user : ℕ) (db db' : Db D) → Step pid db db' → OneActive user db → OneActive user db'
  unfolding count_rows
  Step-OneActive pid user db db' (same u) h = record {
    keyed = rw u h.keyed;
    active = rw u h.active;
  }
  Step-OneActive pid user db db' (created i c) h = record {
    keyed = rw c.orders (c.is_new.fresh, h.keyed);
    active = rw c.orders (
        ground (
          arith,
          h.active,
          c.is_new.owner,
          ==_iff c.order.user_id user,
          ==_iff i.user_id user,
          count_rows-first_row (is_active_of i.user_id) db.orders c.none_before,
        ));
  }
  Step-OneActive pid user db db' (updated k p found act u) h =
      updated-OneActive user k _ db db' p (λ o. refl) found (λ a. a) u.orders h
  Step-OneActive pid user db db' (Step.canceled k p found act c) h =
      updated-OneActive user k _ db db' p (λ o. refl) found (λ a. ground arith) c.orders h

  -- In a shop that lists some product, where all items have their order and order ids are
  -- distinct: a user with at most one active order (CREATED or PAYMENT_PENDING) has at most one
  -- after any calls of Create, Update, Cancel and Get, one after the other.
  pub run-OneActive :
      (env : Env D) (limit pid n user : ℕ) (cs : List Call) (s : Session D)
      → Accounts pid n s.db
      → OneActive user s.db
      → OneActive user (run env limit cs s).db
  run-OneActive env limit pid n user cs s acc one =
      let P : Db D → Type 0 = λ db. Accounts pid n db × OneActive user db in
      let done : P (run env limit cs s).db =
        run-keeps env limit pid P (λ db h. h.0.listed) (λ db h. h.0.closed)
          (λ db db' h st.
            (Step-Accounts pid n db db' h.0 st, Step-OneActive pid user db db' st h.1))
          cs s (acc, one) in
      done.1
