-- ===== src/App/Turns.antt =====
-- What a request does to the tables: a call of `OrderService`, or something elsewhere.
pub mod Served
use soa_hw.Base.{
  ℕ, String, Bool, true, false, Bool-cases, inl, inr, Option, some, none, ◌≡◌, refl, List, [], ◌∷◌,
}
use soa_hw.ApiErr.{Code}
use soa_hw.Store.Schema.{Db}
use soa_hw.Store.Env.{Env, Floats}
use soa_hw.Store.Session.{Error, Result, ok, err, Session, Action}
use soa_hw.Auth.{Primitives}
use soa_hw.Middleware.Auth.{Identity}
use soa_hw.Orders.Service as OrderService
use soa_hw.Orders.History.{Call, creates, updates, cancels, gets, perform}
use soa_hw.Handler.Response.{
  Outcome, Handled, unless, call, answered, success, contains, require_role,
}
use soa_hw.Handler.Auth as Auth
use soa_hw.Handler.Products as Products
use soa_hw.Handler.Orders as Orders
use soa_hw.Handler.Orders.{buyers}
use soa_hw.Handler.Promos as Promos
use soa_hw.Handler.Promos.{PromoBody, PromoResponse, promo_input, to_promo_response}
use soa_hw.Promos as PromoService
use soa_hw.App.Routes.{Endpoint}
use soa_hw.App.Endpoints.{
  Config, Args, registers, logs_in, refreshes, lists, creates_product, gets_product,
  updates_product, deletes_product, creates_order, gets_order, updates_order, cancels_order,
  creates_promo, settings, handle,
}
use soa_hw.App.Elsewhere.{Elsewhere, Elsewhere-refl}
use soa_hw.App.Elsewhere.Rules.{Apart}
use soa_hw.App.Elsewhere.Services.{
  register-Apart, login-Apart, refresh_tokens-Apart, create_promo-Apart, get_by_id-Apart,
  delete-Apart, list-Apart, create-Apart, update-Apart,
}

-- The tables before and after.
pub data Turn {D : Type 0} (env : Env D) (limit : ℕ) (db db' : Db D) : Type 0 where
  apart : Elsewhere db db' → Turn env limit db db'
  called :
      (c : Call) (s : Session D)
      → s.db ≡ db
      → db' ≡ (perform env limit c s).1.db
      → Turn env limit db db'

-- A relation of the tables before and after.
module _ {D : Type 0} (R : Db D → Db D → Type 0) (R-refl : (db : Db D) → R db db) where
  answered-keeps :
      {A B : Type 0} (bad : Error D → Outcome D B) (good : A → Outcome D B)
      (r : Result D A × Session D) (db : Db D)
      → R db r.1.db
      → R db (answered bad good r).1.db
  answered-keeps bad good (ok a, s) db h = h
  answered-keeps bad good (err e, s) db h = h

  call-keeps :
      {A B : Type 0} (service : Action D A) (bad : Error D → Outcome D B) (good : A → Outcome D B)
      (s : Session D)
      → R s.db (service s).1.db
      → R s.db (call service bad good s).1.db
  unfolding call
  call-keeps service bad good s h = answered-keeps bad good (service s) s.db h

  unless-keeps :
      {A : Type 0} (e : Option (Error D)) (n : ℕ) (next : Handled D A) (s : Session D)
      → R s.db (next s).1.db
      → R s.db (unless e n next s).1.db
  unfolding unless
  unless-keeps none n next s h = h
  unless-keeps (some e) n next s h = R-refl s.db

  -- What follows the check of the role runs for a role of the list.
  role-keeps :
      {A : Type 0} (role : String) (roles : List String) (n : ℕ) (next : Handled D A)
      (s : Session D)
      → (contains roles role ≡ true → R s.db (next s).1.db)
      → R s.db (unless (require_role role roles) n next s).1.db
  unfolding require_role unless
  role-keeps role roles n next s h = elim (Bool-cases (contains roles role)) [
    | inl allowed ↦ rw allowed (h allowed)
    | inr other ↦ rw other (R-refl s.db)
  ]

module _ {D F : Type 0} (env : Env D) (prims : Primitives D) (floats : Floats D F)
    (reparse : ℕ → Option ℕ) (config : Config) where
  module _ (R : Db D → Db D → Type 0) (R-refl : (db : Db D) → R db db) where
    promo-keeps :
        (bad : Error D → Outcome D (PromoResponse F)) (body : PromoBody F) (s : Session D)
        (from until : Option ℕ)
        → ((db' : Db D) → Elsewhere s.db db' → R s.db db')
        → R s.db
            (Promos.parsed from
              (λ f. Promos.parsed until λ u.
                call
                  (PromoService.create env prims floats (promo_input body f u))
                  bad
                  (λ p. success 201 (to_promo_response floats p)))
              s).1.db
    promo-keeps bad body s none until other = R-refl s.db
    promo-keeps bad body s (some f) none other = R-refl s.db
    promo-keeps bad body s (some f) (some u) other =
        call-keeps R R-refl _ _ _ s (other _ (create_promo-Apart env prims floats _ s))

    -- What holds of anything elsewhere, and of any call of `OrderService` if the caller has one of
    -- the roles for it, holds of every endpoint. The limit is the one that NewOrderService is given.
    pub handle-keeps :
        {e : Endpoint} (args : Args F e) (who : Identity) (s : Session D)
        → ((db' : Db D) → Elsewhere s.db db' → R s.db db')
        → (contains buyers who.role ≡ true
            → (c : Call) → R s.db (perform env config.order_rate_limit_minutes c s).1.db)
        → R s.db (handle env prims floats reparse config args who s).1.db
    unfolding handle Auth.register_user Auth.login_user Auth.refresh_token Products.list_products
        Products.create_product Products.get_product Products.update_product Products.delete_product
        Orders.create_order Orders.get_order Orders.update_order Orders.cancel_order
        Promos.create_promo_code perform
    handle-keeps (registers email password role) who s other calls =
        call-keeps R R-refl _ _ _ s (other _ (register-Apart env prims _ email password _ s))
    handle-keeps (logs_in email password) who s other calls =
        call-keeps R R-refl _ _ _ s (other _ (login-Apart env prims _ email password s))
    handle-keeps (refreshes token) who s other calls =
        call-keeps R R-refl _ _ _ s (other _ (refresh_tokens-Apart env prims _ token s))
    handle-keeps (lists params) who s other calls =
        call-keeps R R-refl _ _ _ s (other _ (list-Apart env _ s))
    handle-keeps (creates_product body) who s other calls = unless-keeps R R-refl _ _ _ s (
        unless-keeps R R-refl _ _ _ s
          (call-keeps R R-refl _ _ _ s (other _ (create-Apart env floats _ s))))
    handle-keeps (gets_product id) who s other calls =
        call-keeps R R-refl _ _ _ s (other _ (get_by_id-Apart env id s))
    handle-keeps (updates_product id body status) who s other calls =
        unless-keeps R R-refl _ _ _ s (
          unless-keeps R R-refl _ _ _ s
            (call-keeps R R-refl _ _ _ s (other _ (update-Apart env floats id _ _ _ s))))
    handle-keeps (deletes_product id) who s other calls =
        unless-keeps R R-refl _ _ _ s
          (call-keeps R R-refl _ _ _ s (other _ (delete-Apart env id _ _ s)))
    handle-keeps (creates_order body) who s other calls = role-keeps R R-refl _ _ _ _ s λ buyer.
        unless-keeps R R-refl _ _ _ s (
          call-keeps R R-refl _ _ _ s
            (calls buyer (creates (Orders.create_input who.user_id body))))
    handle-keeps (gets_order id) who s other calls =
        role-keeps R R-refl _ _ _ _ s
          λ buyer. call-keeps R R-refl _ _ _ s (calls buyer (gets id who.user_id who.role))
    handle-keeps (updates_order id body) who s other calls = role-keeps R R-refl _ _ _ _ s λ buyer.
        unless-keeps R R-refl _ _ _ s (
          call-keeps R R-refl _ _ _ s
            (calls buyer (updates (Orders.update_input id who.user_id who.role body))))
    handle-keeps (cancels_order id) who s other calls =
        role-keeps R R-refl _ _ _ _ s
          λ buyer. call-keeps R R-refl _ _ _ s (calls buyer (cancels id who.user_id who.role))
    handle-keeps (creates_promo body) who s other calls =
        unless-keeps R R-refl _ _ _ s
          (promo-keeps _ body s (reparse body.valid_from) (reparse body.valid_until) other)

  pub handle-Turn :
      {e : Endpoint} (args : Args F e) (who : Identity) (s : Session D)
      → Turn env config.order_rate_limit_minutes s.db
          (handle env prims floats reparse config args who s).1.db
  handle-Turn args who s =
      handle-keeps (Turn env config.order_rate_limit_minutes) (λ db. apart (Elsewhere-refl db)) args
        who s (λ db' e. apart e) λ _ c. called c s refl refl

  -- For a caller without such a role, it is something elsewhere.
  pub handle-Apart :
      {e : Endpoint} (args : Args F e) (who : Identity) (s : Session D)
      → contains buyers who.role ≡ false
      → Elsewhere s.db (handle env prims floats reparse config args who s).1.db
  handle-Apart args who s outsider =
      handle-keeps Elsewhere Elsewhere-refl args who s (λ db' e. e) λ buyer c. cc
