-- ===== src/Examples/Server.antt =====
-- The server of internal/app/app.go with toy libraries, at concrete requests.
use soa_hw.Base.{
  ℕ, arith, String, str_eq, true, false, ◌&&◌, ◌≡◌, refl, Option, none, some, List, [], ◌∷◌,
  if◌then◌else◌, Bool-cases, inl, inr,
}
use soa_hw.Base.Int.{pos}
use soa_hw.Base.Texts.{trim_prefix, has_prefix}
use soa_hw.Base.Texts as Texts
use soa_hw.Base.Rows.{find_row, filter_rows}
use soa_hw.ApiErr.{token_invalid}
use soa_hw.Orders.History.Book.{Moves, book_of}
use soa_hw.Orders.History.Status.{Kept}
use soa_hw.Middleware.Http.{Request}
use soa_hw.Middleware.Auth.{Identity, parsed, authenticate}
use soa_hw.Handler.Response.{contains}
use soa_hw.Handler.Orders.{buyers}
use soa_hw.Middleware.Logging.{Json, mask_sensitive, is_sensitive}
use soa_hw.Middleware.Logging.Masking.{nothing, same, secret, mask_sensitive-Alike}
use soa_hw.App.Routes.{Endpoint, cancel_order, get_order, Route, routes, Found, route, unrouted}
use soa_hw.App.Endpoints.{Config, unauthorized, cancels_order, gets_order}
use soa_hw.App.Server.{Libraries, World, Decoded, malformed, decoded, serve_http, serve_all, tick}
use soa_hw.App.Elsewhere.{Elsewhere}
use soa_hw.App.Turns.Served.{IsCaller}
use soa_hw.App.Buyers.{serve_http-Elsewhere}
use soa_hw.App.Shop.{Shop, serve_all-Shop, serve_all-Kept}
use soa_hw.App.Book.{serve_all-Moves}
use soa_hw.App.Door.{IsOneOf, FindsRoutes, IsShut, is_account, serve_http-IsShut}
use soa_hw.App.Canceling.{CanCancel, IsCancelation, IsDone, serve_http-IsDone}
use soa_hw.App.Log.{line, serve_http-log}
use soa_hw.Examples.Data.{still, whole, session, shop, old_order}
use soa_hw.Examples.Orders.{shop-Accounts, shop-OneActive, shop-UsesHeld}
use soa_hw.Examples.Cancel.{shop-HasRoom}
use soa_hw.Examples.Tokens.{unary, size, toy, signing}

-- A body is a number under the key password and the number 7 under name.
abbrev members : List ℕ → Option (List (String × ℕ))
members [] = none
members (n ∷ ns) = some (("password", n) ∷ ("name", 7) ∷ [])

values : List (String × ℕ) → List ℕ
values [] = []
values ((key, value) ∷ ms) = value ∷ values ms

abbrev toy_json : Json ℕ
toy_json = record { unmarshal = members; marshal = values; text = λ _. 0; to_lower = λ t. t }

-- Routes whose pattern is the path itself.
first_route : List Route → String → String → Found
first_route [] method path =
    unrouted (record { status = 404; headers = []; body = "404 page not found" })
first_route (t ∷ ts) method path =
    if str_eq t.method method && str_eq t.pattern path then route t else first_route ts method path

finds_routes : FindsRoutes first_route
unfolding first_route
finds_routes [] method path t e = cc
finds_routes (u ∷ ts) method path t e =
    elim (Bool-cases (str_eq u.method method && str_eq u.pattern path)) [
      | inl hit ↦ let here : u ≡ t = cc (rw hit at e) in rw here IsOneOf.here
      | inr miss ↦ IsOneOf.later (finds_routes ts method path t (rw miss at e))
    ]

-- Every request for an order is for the order 40.
abbrev understood : (e : Endpoint) → Request → Decoded ℕ e
understood cancel_order r = decoded (cancels_order 40)
understood get_order r = decoded (gets_order 40)
understood _ r = malformed (record { type_error = none; text = "unknown" })

abbrev libraries : Libraries ℕ ℕ ℕ
libraries = record {
  env = still;
  prims = signing;
  floats = whole;
  reparse = λ t. some t;
  jwt = toy;
  json = toy_json;
  find = first_route;
  allow_content_type = λ _ _. true;
  decode = understood;
}

abbrev config : Config
config = record {
  jwt_secret = "secret";
  jwt_access_ttl = 900000000000;
  jwt_refresh_ttl = 9000000000000;
  order_rate_limit_minutes = 1;
}

abbrev world : World ℕ
world = record { session = session; log = [] }

abbrev cancels : String → Request
cancels authorization = record {
  method = "POST";
  path = "/orders/{id}/cancel";
  authorization = authorization;
  content_type = "";
  content_length = pos 0;
  body = [];
}

-- The holder of the token cancels the order, and somebody without a token tries to.
abbrev requests : List Request
requests = cancels "Bearer t" ∷ cancels "Basic t" ∷ []

shop-Shop : Shop 1 5 30 0 shop
shop-Shop = record {
  listed = shop-Accounts.listed;
  closed = shop-Accounts.closed;
  one = shop-OneActive;
  held = shop-UsesHeld;
}

serve_all-Shop_example : Shop 1 5 30 0 (serve_all libraries config requests world).session.db
serve_all-Shop_example = serve_all-Shop libraries config 1 5 30 0 requests world shop-Shop

serve_all-Kept_example : Kept 40 old_order (serve_all libraries config requests world).session.db
unfolding find_row
serve_all-Kept_example =
    serve_all-Kept libraries config 1 5 30 0 40 old_order requests world shop-Shop refl

serve_all-Moves_example :
    Moves (book_of shop) (book_of (serve_all libraries config requests world).session.db)
serve_all-Moves_example = serve_all-Moves libraries config 1 5 30 0 requests world shop-Shop

abbrev to_cancel : Route
to_cancel = record {
  method = "POST";
  pattern = "/orders/{id}/cancel";
  is_protected = true;
  endpoint = cancel_order;
}

-- The one route that the path has.
cancel_route :
    (t : Route)
    → first_route routes "POST" "/orders/{id}/cancel" ≡ route t
    → is_account t.endpoint ≡ false
unfolding first_route routes
cancel_route t e =
    let same : record {
      method = "POST";
      pattern = "/orders/{id}/cancel";
      is_protected = true;
      endpoint = cancel_order;
    }
        ≡ t =
      cc (e) in
    rw (← same) refl

serve_http-IsShut_example :
    IsShut libraries config
      (401, unauthorized token_invalid)
      world
      (serve_http libraries config (cancels "Basic t") world)
unfolding authenticate has_prefix first_route routes
serve_http-IsShut_example =
    serve_http-IsShut libraries config token_invalid (cancels "Basic t") world finds_routes refl
      cancel_route

-- The same server where every token is that of a seller.
abbrev selling : Libraries ℕ ℕ ℕ
selling = record libraries {
  jwt = record toy {
    parse_with_claims =
        λ key now token. parsed true (record { subject = unary 5; role = "SELLER" });
  };
}

only_seller :
    (who : Identity)
    → IsCaller selling config (cancels "Bearer t") (tick selling config world) who
    → contains buyers who.role ≡ false
unfolding authenticate has_prefix trim_prefix unary size
only_seller who e =
    let same : record { user_id = 5; role = "SELLER" } ≡ who = cc (e) in rw (← same) refl

serve_http-Elsewhere_example :
    Elsewhere shop (serve_http selling config (cancels "Bearer t") world).1.session.db
serve_http-Elsewhere_example =
    serve_http-Elsewhere selling config (cancels "Bearer t") world only_seller

serve_http-log_example :
    (serve_http libraries config (cancels "Bearer t") world).1.log
    ≡ line libraries config
        (cancels "Bearer t")
        world
        (serve_http libraries config (cancels "Bearer t") world).0
      ∷ []
serve_http-log_example = serve_http-log libraries config (cancels "Bearer t") world

mask_sensitive-Alike_example : mask_sensitive toy_json (1 ∷ []) ≡ mask_sensitive toy_json (2 ∷ [])
unfolding is_sensitive Texts.contains has_prefix
mask_sensitive-Alike_example =
    mask_sensitive-Alike toy_json (1 ∷ []) (2 ∷ []) refl refl
      (secret {key = "password"} refl (same nothing))

shop-CanCancel :
    CanCancel libraries config 40 (record { user_id = 5; role = "USER" }) old_order shop
unfolding find_row filter_rows
shop-CanCancel = record {
  no_fault = λ k. refl;
  found = refl;
  allowed = refl;
  own = refl;
  active = refl;
  room = shop-HasRoom;
}

cancels-IsCancelation :
    IsCancelation libraries config 40
      (record { user_id = 5; role = "USER" })
      old_order
      (cancels "Bearer t")
      to_cancel
      world
unfolding authenticate has_prefix trim_prefix first_route routes unary size
cancels-IsCancelation = record {
  is_json = refl;
  is_post = refl;
  short = omega arith;
  routed_to = refl;
  to_cancel = refl;
  is_protected = refl;
  understood = refl;
  known = refl;
}

serve_http-IsDone_example :
    IsDone libraries config 40 (serve_http libraries config (cancels "Bearer t") world)
serve_http-IsDone_example =
    serve_http-IsDone libraries config 40 (record { user_id = 5; role = "USER" }) old_order
      (cancels "Bearer t") to_cancel world shop-CanCancel cancels-IsCancelation
