-- ===== src/Orders/History/Codes.antt =====
-- The uses of each promo code, against the orders that name it, over any calls.
use soa_hw.Base.{
  ℕ, ◌+◌, ◌-◌, ◌≡◌, refl, ap, inl, inr, ◌⊎◌, Bool, true, false, not, ◌&&◌, ◌==◌, if◌then◌else◌,
  is_some, Option, none, some, List, arith,
}
use soa_hw.Base.Rows.{find_row, update_rows, find_row-update_rows}
use soa_hw.Base.Keys.{count_rows, IsKeyed, update_rows-IsKeyed, count_rows-update_rows}
use soa_hw.Store.Schema.{Db, Order, PromoCode, canceled}
use soa_hw.Store.Env.{Env}
use soa_hw.Store.Session.{Session}
use soa_hw.Store.Queries.{add_use, drop_use, with_status, with_amounts}
use soa_hw.Store.Queries.Checks.{order_id, promo_id}
use soa_hw.Orders.Service.{is_created}
use soa_hw.Orders.Promo.{claimed, refunded}
use soa_hw.Orders.Supply.{Accounts}
use soa_hw.Orders.Supply.Held.{is_canceled}
use soa_hw.Orders.History.{Call, run}
use soa_hw.Orders.History.Steps.{Step, same, created, updated, run-keeps}
use soa_hw.Orders.History.Units.{Step-Accounts}

abbrev names : Option ℕ → ℕ → Bool
names none code = false
names (some id) code = id == code

module _ {D : Type 0} where
  abbrev uses_of : Option (PromoCode D) → ℕ
  uses_of none = 0
  uses_of (some p) = p.current_uses

  abbrev pub uses_at : ℕ → List (PromoCode D) → ℕ
  uses_at code ps = uses_of (find_row promo_id code ps)

  -- The order names the code and is not canceled.
  abbrev pub is_holder : ℕ → Order D → Bool
  is_holder code o = names o.promo_code_id code && not (is_canceled o.status)

  -- The code is there, `base` of its uses belong to no order, and each other use to one order that is
  -- not canceled. Order ids are distinct.
  pub record UsesHeld (code base : ℕ) (db : Db D) : Type 0 where
    pub listed : is_some (find_row promo_id code db.promo_codes) ≡ true
    pub keyed : IsKeyed order_id db.orders
    pub uses : uses_at code db.promo_codes ≡ base + count_rows (is_holder code) db.orders

  claimed_uses :
      (code : ℕ) (promo : Option ℕ) (ps : List (PromoCode D))
      → is_some (find_row promo_id code ps) ≡ true
      → (is_some (find_row promo_id code (claimed promo ps)) ≡ true)
        × (uses_at code (claimed promo ps) ≡ uses_at code ps + (if names promo code then 1 else 0))
  claimed_uses code none ps l = (l, ground arith)
  claimed_uses code (some id) ps l = (
    ground (arith, find_row-update_rows promo_id code id add_use ps (λ p. refl)),
    ground (arith, find_row-update_rows promo_id code id add_use ps (λ p. refl)),
  )

  drop_use-id : (p : PromoCode D) → (drop_use p).id ≡ p.id
  drop_use-id p = ground arith

  drop_use-uses : (p : PromoCode D) → (drop_use p).current_uses ≡ p.current_uses - 1
  drop_use-uses p = ground arith

  refunded_uses :
      (code : ℕ) (promo : Option ℕ) (ps : List (PromoCode D))
      → is_some (find_row promo_id code ps) ≡ true
      → (is_some (find_row promo_id code (refunded promo ps)) ≡ true)
        × (uses_at code (refunded promo ps) ≡ uses_at code ps - (if names promo code then 1 else 0))
  refunded_uses code none ps l = (l, ground arith)
  refunded_uses code (some id) ps l = (
    ground (arith, find_row-update_rows promo_id code id drop_use ps drop_use-id),
    ground (arith, find_row-update_rows promo_id code id drop_use ps drop_use-id),
  )

  -- The order `k`, which is `p` and CREATED, keeps its code, or drops it and gives the use back.
  updated-UsesHeld :
      (code base k now : ℕ) (total discount : D) (promo' : Option ℕ) (db db' : Db D) (p : Order D)
      → find_row order_id k db.orders ≡ some p
      → is_created p.status ≡ true
      → db'.orders ≡ update_rows order_id k (with_amounts now total discount promo') db.orders
      → ((promo' ≡ p.promo_code_id) × (db'.promo_codes ≡ db.promo_codes))
        ⊎ ((promo' ≡ none) × (db'.promo_codes ≡ refunded p.promo_code_id db.promo_codes))
      → UsesHeld code base db
      → UsesHeld code base db'
  updated-UsesHeld code base k now total discount promo' db db' p found act u (inl (e, c)) h =
      record {
        listed = rw c h.listed;
        keyed = rw u (update_rows-IsKeyed order_id k _ db.orders (λ o. refl) h.keyed);
        uses =
            rw (c, u)
              (ground (
                arith,
                h.uses,
                ap (λ q. names q code) e,
                count_rows-update_rows order_id (is_holder code) k
                    (with_amounts now total discount promo') db.orders {r = p} h.keyed found,
              ));
      }
  updated-UsesHeld code base k now total discount promo' db db' p found act u (inr (e, c)) h =
      let t = refunded_uses code p.promo_code_id db.promo_codes h.listed in
      record {
        listed = rw c t.0;
        keyed = rw u (update_rows-IsKeyed order_id k _ db.orders (λ o. refl) h.keyed);
        uses =
            rw (c, u)
              (ground (
                arith,
                t.1,
                h.uses,
                ap (λ q. names q code) e,
                count_rows-update_rows order_id (is_holder code) k
                    (with_amounts now total discount promo') db.orders {r = p} h.keyed found,
              ));
      }

  pub Step-UsesHeld :
      (pid code base : ℕ) (db db' : Db D)
      → Step pid db db'
      → UsesHeld code base db
      → UsesHeld code base db'
  unfolding count_rows
  Step-UsesHeld pid code base db db' (same u) h = rw u h
  Step-UsesHeld pid code base db db' (created i c) h =
      let t = claimed_uses code c.promo db.promo_codes h.listed in
      record {
        listed = rw c.promo_codes t.0;
        keyed = rw c.orders (c.is_new.fresh, h.keyed);
        uses =
            rw (c.promo_codes, c.orders)
              (ground (arith, t.1, h.uses, c.is_new.is_created, c.is_new.code));
      }
  Step-UsesHeld pid code base db db' (updated k p found act u) h =
      updated-UsesHeld code base k u.now u.total u.discount u.promo' db db' p found act u.orders
        u.promo_codes h
  Step-UsesHeld pid code base db db' (Step.canceled k p found act c) h =
      let t = refunded_uses code p.promo_code_id db.promo_codes h.listed in
      record {
        listed = rw c.promo_codes t.0;
        keyed = rw c.orders (update_rows-IsKeyed order_id k _ db.orders (λ o. refl) h.keyed);
        uses =
            rw (c.promo_codes, c.orders)
              (ground (
                arith,
                t.1,
                h.uses,
                count_rows-update_rows order_id (is_holder code) k (with_status c.now canceled)
                    db.orders {r = p} h.keyed found,
              ));
      }

  -- In a shop that lists some product, where all items have their order and order ids are
  -- distinct: after any calls of Create, Update, Cancel and Get, with any failures of the
  -- database, a promo code that was there is there, and its recorded uses are those that belonged
  -- to no order before, and one for each order that names the code and is not canceled.
  pub run-UsesHeld :
      (env : Env D) (limit pid n code base : ℕ) (cs : List Call) (s : Session D)
      → Accounts pid n s.db
      → UsesHeld code base s.db
      → UsesHeld code base (run env limit cs s).db
  run-UsesHeld env limit pid n code base cs s acc held =
      let P : Db D → Type 0 = λ db. Accounts pid n db × UsesHeld code base db in
      let done : P (run env limit cs s).db =
        run-keeps env limit pid P (λ db h. h.0.listed) (λ db h. h.0.closed)
          (λ db db' h st.
            (Step-Accounts pid n db db' h.0 st, Step-UsesHeld pid code base db db' st h.1))
          cs s (acc, held) in
      done.1
