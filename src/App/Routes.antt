-- ===== src/App/Routes.antt =====
-- The routes of `NewRouter` in internal/app/app.go.
use soa_hw.Base.{String, Bool, true, false, List, [], ◌∷◌}
use soa_hw.Middleware.Http.{Response}

-- The methods of `wrapper`
pub data Endpoint : Type 0 where
  register_user login_user refresh_token : Endpoint
  list_products create_product get_product update_product delete_product : Endpoint
  create_order get_order update_order cancel_order : Endpoint
  create_promo_code : Endpoint

pub record Route : Type 0 where
  pub method : String
  pub pattern : String
  -- Whether it is in the group that uses `Auth`.
  pub is_protected : Bool
  pub endpoint : Endpoint

abbrev public : String → String → Endpoint → Route
public method pattern e = record {
  method = method;
  pattern = pattern;
  is_protected = false;
  endpoint = e;
}

abbrev group : String → String → Endpoint → Route
group method pattern e = record {
  method = method;
  pattern = pattern;
  is_protected = true;
  endpoint = e;
}

unfoldable pub routes : List Route
routes =
    public "POST" "/auth/register" register_user
    ∷ public "POST" "/auth/login" login_user
    ∷ public "POST" "/auth/refresh" refresh_token
    ∷ group "GET" "/products" list_products
    ∷ group "POST" "/products" create_product
    ∷ group "GET" "/products/{id}" get_product
    ∷ group "PUT" "/products/{id}" update_product
    ∷ group "DELETE" "/products/{id}" delete_product
    ∷ group "POST" "/orders" create_order
    ∷ group "GET" "/orders/{id}" get_order
    ∷ group "PUT" "/orders/{id}" update_order
    ∷ group "POST" "/orders/{id}/cancel" cancel_order
    ∷ group "POST" "/promo-codes" create_promo_code
    ∷ []

-- What the router finds for a method and a path.
pub data Found : Type 0 where
  route : Route → Found
  -- No route: the whole response is chi's, by `http.NotFound` and its like.
  unrouted : Response String → Found
