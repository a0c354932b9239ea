-- ===== src/App/Endpoints.antt =====
-- The endpoints behind the routes of internal/app/app.go: `handler.New` on the four services.
use soa_hw.Base.{ℕ, String, Option, []}
use soa_hw.ApiErr.{Code}
use soa_hw.Store.Env.{Env, Floats}
use soa_hw.Store.Session.{Session}
use soa_hw.Auth.{Primitives, Settings}
use soa_hw.Middleware.Http.{Response}
use soa_hw.Middleware.Auth.{Identity}
use soa_hw.Handler.Response.{
  ErrorResponse, Outcome, Reply, sent, sent_error, unsent, serve, OrderResponse,
}
use soa_hw.Handler.BadRequest.{BadRequest}
use soa_hw.Handler.Auth as Auth
use soa_hw.Handler.Auth.{AuthResponse}
use soa_hw.Handler.Products as Products
use soa_hw.Handler.Products.{ProductBody, ListParams, ProductResponse, PagedResponse}
use soa_hw.Handler.Orders as Orders
use soa_hw.Handler.Orders.{OrderCreate, OrderUpdate}
use soa_hw.Handler.Promos as Promos
use soa_hw.Handler.Promos.{PromoBody, PromoResponse}
use soa_hw.App.Routes.{
  Endpoint, register_user, login_user, refresh_token, list_products, create_product, get_product,
  update_product, delete_product, create_order, get_order, update_order, cancel_order,
  create_promo_code,
}

-- app.Config
pub record Config : Type 0 where
  pub jwt_secret : String
  pub jwt_access_ttl : ℕ
  pub jwt_refresh_ttl : ℕ
  pub order_rate_limit_minutes : ℕ

-- What the generated server hands to the method of an endpoint.
pub data Args (F : Type 0) : Endpoint → Type 0 where
  registers : String → String → Option String → Args F register_user
  logs_in : String → String → Args F login_user
  refreshes : String → Args F refresh_token
  lists : ListParams → Args F list_products
  creates_product : ProductBody F → Args F create_product
  gets_product : ℕ → Args F get_product
  updates_product : ℕ → ProductBody F → String → Args F update_product
  deletes_product : ℕ → Args F delete_product
  creates_order : OrderCreate → Args F create_order
  gets_order : ℕ → Args F get_order
  updates_order : ℕ → OrderUpdate → Args F update_order
  cancels_order : ℕ → Args F cancel_order
  creates_promo : PromoBody F → Args F create_promo_code

-- What is written as a body.
pub data Body (D F : Type 0) : Type 0 where
  tokens : AuthResponse → Body D F
  products : PagedResponse F → Body D F
  product : ProductResponse F → Body D F
  order : OrderResponse F → Body D F
  promo : PromoResponse F → Body D F
  refused : ErrorResponse D → Body D F
  undecoded : BadRequest → Body D F
  unauthorized : Code → Body D F
  -- A text of chi's own.
  plain : String → Body D F
  blank : Body D F

-- net/http answers 200 where nothing is written.
abbrev pub written : {D F A : Type 0} → (A → Body D F) → Reply D A → Response (Body D F)
written shown (sent n a) = record { status = n; headers = []; body = shown a }
written shown (sent_error n r) = record { status = n; headers = []; body = refused r }
written shown unsent = record { status = 200; headers = []; body = blank }

abbrev pub replied :
    {D F A : Type 0} → (A → Body D F) → Outcome D A × Session D → Response (Body D F) × Session D
replied shown (o, s) = (written shown (serve o), s)

module _ {D F : Type 0} (env : Env D) (prims : Primitives D) (floats : Floats D F)
    (reparse : ℕ → Option ℕ) (config : Config) where
  open config use {jwt_secret, jwt_access_ttl, jwt_refresh_ttl, order_rate_limit_minutes}

  -- NewAuthService
  abbrev pub settings : Settings
  settings = record {
    jwt_secret = jwt_secret;
    access_ttl = jwt_access_ttl;
    refresh_ttl = jwt_refresh_ttl;
  }

  -- The method of `handler.Handler` for an endpoint, and what is written of its outcome.
  unfoldable pub handle :
      {e : Endpoint} → Args F e → Identity → Session D → Response (Body D F) × Session D
  handle (registers email password role) who s =
      replied tokens (Auth.register_user env prims settings email password role s)
  handle (logs_in email password) who s =
      replied tokens (Auth.login_user env prims settings email password s)
  handle (refreshes token) who s = replied tokens (Auth.refresh_token env prims settings token s)
  handle (lists params) who s = replied products (Products.list_products env floats params s)
  handle (creates_product body) who s =
      replied product (Products.create_product env floats who.user_id who.role body s)
  handle (gets_product id) who s = replied product (Products.get_product env floats id s)
  handle (updates_product id body status) who s =
      replied product (Products.update_product env floats id who.user_id who.role body status s)
  handle (deletes_product id) who s =
      replied product (Products.delete_product env floats id who.user_id who.role s)
  handle (creates_order body) who s =
      replied order
        (Orders.create_order env floats order_rate_limit_minutes who.user_id who.role body s)
  handle (gets_order id) who s =
      replied order (Orders.get_order env floats id who.user_id who.role s)
  handle (updates_order id body) who s =
      replied order
        (Orders.update_order env floats order_rate_limit_minutes id who.user_id who.role body s)
  handle (cancels_order id) who s =
      replied order (Orders.cancel_order env floats id who.user_id who.role s)
  handle (creates_promo body) who s =
      replied promo (Promos.create_promo_code env prims floats reparse who.role body s)
