-- ===== src/App/Door.antt =====
-- What `Auth` keeps out of the server of internal/app/app.go.
use soa_hw.Base.{
  ℕ, String, str_eq, Bool, true, false, not, ◌&&◌, suc, ◌≡◌, inl, inr, refl, arith, Bool-cases,
  List, [], ◌∷◌, if◌then◌else◌,
}
use soa_hw.ApiErr.{Code}
use soa_hw.Middleware.Http.{Request, Served}
use soa_hw.Middleware.Auth.{Identity, rejected, authenticate}
use soa_hw.Middleware.Logging.{passed_on}
use soa_hw.Middleware.Logging.Passing.{passed_on-method, passed_on-path, passed_on-authorization}
use soa_hw.App.Routes.{
  Endpoint, register_user, login_user, refresh_token, Route, routes, Found, route, unrouted,
}
use soa_hw.App.Endpoints.{Config, Body, unauthorized, plain, blank}
use soa_hw.App.Server.{
  Libraries, World, Next, endpoint, with_auth, routed, router, with_log, with_cors, serve_http,
  tick,
}

-- The endpoints of accounts
abbrev pub is_account : Endpoint → Bool
is_account register_user = true
is_account login_user = true
is_account refresh_token = true
is_account _ = false

pub data IsOneOf (t : Route) : List Route → Type 0 where
  here : {ts : List Route} → IsOneOf t (t ∷ ts)
  later : {u : Route} {ts : List Route} → IsOneOf t ts → IsOneOf t (u ∷ ts)

-- What go-chi documents of its router: it finds routes that were registered.
abbrev pub FindsRoutes : (List Route → String → String → Found) → Type 0
FindsRoutes find =
    (ts : List Route) (method path : String) (t : Route)
    → find ts method path ≡ route t
    → IsOneOf t ts

all : (Route → Bool) → List Route → Bool
all test [] = true
all test (t ∷ ts) = test t && all test ts

all-IsOneOf :
    (test : Route → Bool) (t : Route) (ts : List Route)
    → all test ts ≡ true
    → IsOneOf t ts
    → test t ≡ true
unfolding all
all-IsOneOf test t [] h m = elim m [ ]
all-IsOneOf test t (_ ∷ ts) h here = ground arith
all-IsOneOf test t (u ∷ ts) h (later m) = all-IsOneOf test t ts (ground arith) m

abbrev as_grouped : Route → Bool
as_grouped t = if t.is_protected then not (is_account t.endpoint) else is_account t.endpoint

-- The routes outside the group are those of accounts.
routes-protected : (t : Route) → IsOneOf t routes → t.is_protected ≡ not (is_account t.endpoint)
unfolding routes all
routes-protected t m = ground (arith, all-IsOneOf as_grouped t routes refl m)

module _ {D F J : Type 0} (libs : Libraries D F J) (config : Config) where
  -- How a request without a good token is answered: what follows from the content type, the method
  -- and the route alone.
  abbrev pub shut_answer : Code → Bool → Bool → Found → ℕ × Body D F
  shut_answer c false asked f = (415, blank)
  shut_answer c true true f = (204, blank)
  shut_answer c true false (route t) = (401, unauthorized c)
  shut_answer c true false (unrouted a) = (a.status, plain a.body)

  -- Nothing is written to the tables, and this is the status and the body.
  pub record IsShut (answer : ℕ × Body D F) (w : World D) (p : Served (Body D F) × World D)
      : Type 0 where
    pub tables : p.1.session.db ≡ w.session.db
    pub response : (p.0.response.status, p.0.response.body) ≡ answer

  with_auth-IsShut :
      (c : Code) (next : Identity → Next libs config) (r : Request) (w : World D)
      → authenticate libs.jwt config.jwt_secret (libs.env.clock w.session.step) r.authorization
        ≡ rejected c
      → IsShut (401, unauthorized c) w (with_auth libs config next r w)
  unfolding with_auth
  with_auth-IsShut c next r w no_token = rw no_token (record { tables = refl; response = refl })

  router-IsShut :
      (c : Code) (r : Request) (w : World D) (f : Found)
      → authenticate libs.jwt config.jwt_secret (libs.env.clock w.session.step) r.authorization
        ≡ rejected c
      → ((t : Route) → f ≡ route t → t.is_protected ≡ true)
      → IsShut (shut_answer c true false f) w (routed libs config f r w)
  router-IsShut c r w (unrouted a) no_token inside = record { tables = refl; response = refl }
  router-IsShut c r w (route t) no_token inside =
      rw (inside t refl) (with_auth-IsShut c (endpoint libs config t.endpoint) r w no_token)

  with_log-IsShut :
      (answer : ℕ × Body D F) (next : Next libs config) (r : Request) (w : World D)
      → IsShut answer (tick libs config w) (next (passed_on r) (tick libs config w))
      → IsShut answer w (with_log libs config next r w)
  unfolding with_log
  with_log-IsShut answer next r w h = record { tables = h.tables; response = h.response }

  with_cors-IsShut :
      (c : Code) (f : Found) (next : Next libs config) (r : Request) (w : World D)
      → IsShut (shut_answer c true false f) w (next r w)
      → IsShut (shut_answer c true (str_eq r.method "OPTIONS") f) w (with_cors libs config next r w)
  unfolding with_cors
  with_cors-IsShut c f next r w h = elim (Bool-cases (str_eq r.method "OPTIONS")) [
    | inl asked ↦ rw asked (record { tables = refl; response = refl })
    | inr other ↦ rw other (record { tables = h.tables; response = h.response })
  ]

  -- With a router that finds none but the routes it was given: a request whose Authorization
  -- header is rejected, and whose route, if it has one, is none of register, login and refresh,
  -- writes nothing to the tables. It is answered 415 without a body if its content type is not
  -- allowed, else 204 without a body if its method is OPTIONS, else 401 with the code of the
  -- rejection if it has a route, and else as go-chi answers where there is no route.
  pub serve_http-IsShut :
      (c : Code) (r : Request) (w : World D)
      → FindsRoutes libs.find
      → authenticate libs.jwt config.jwt_secret
          (libs.env.clock (suc w.session.step))
          r.authorization
        ≡ rejected c
      → ((t : Route) → libs.find routes r.method r.path ≡ route t → is_account t.endpoint ≡ false)
      → IsShut
          (shut_answer c
            (libs.allow_content_type "application/json" r)
            (str_eq r.method "OPTIONS")
            (libs.find routes r.method r.path))
          w
          (serve_http libs config r w)
  unfolding serve_http router passed_on
  serve_http-IsShut c r w finds no_token other =
      let f = libs.find routes r.method r.path in
      let shut : IsShut (shut_answer c true false f) (tick libs config w)
          (router libs config (passed_on r) (tick libs config w)) =
        rw (passed_on-method r, passed_on-path r)
          (router-IsShut c (passed_on r) (tick libs config w) f
            (rw (passed_on-authorization r) no_token)
            λ t e. rw (other t e) at (routes-protected t (finds _ _ _ t e))) in
      elim (Bool-cases (libs.allow_content_type "application/json" r)) [
        | inl allowed ↦
            rw allowed
              (with_cors-IsShut c f _ r w (with_log-IsShut _ (router libs config) r w shut))
        | inr refused ↦ rw refused (record { tables = refl; response = refl })
      ]
