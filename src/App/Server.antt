-- ===== src/App/Server.antt =====
-- `NewRouter` of internal/app/app.go: a request through the middleware to its endpoint.
use soa_hw.Base.{ℕ, suc, String, str_eq, Bool, if◌then◌else◌, Option, List, [], ◌∷◌}
use soa_hw.Store.Env.{Env, Floats}
use soa_hw.Store.Session.{Session}
use soa_hw.Auth.{Primitives}
use soa_hw.Middleware.Http.{Request, Response, Served}
use soa_hw.Middleware.Auth.{Jwt, Identity, nobody, Verdict, rejected, accepted, authenticate}
use soa_hw.Middleware.Logging.{Json, Entry, passed_on, entry_of}
use soa_hw.Handler.BadRequest.{RequestError, request_error_handler}
use soa_hw.App.Routes.{Endpoint, Route, routes, Found, route, unrouted}
use soa_hw.App.Endpoints.{Config, Args, Body, undecoded, unauthorized, plain, blank, handle}

-- What the generated server makes of a request.
pub data Decoded (F : Type 0) (e : Endpoint) : Type 0 where
  malformed : RequestError → Decoded F e
  decoded : Args F e → Decoded F e

-- The libraries: go-chi, the generated server, and those of the services and the middleware.
-- `J` is the type of JSON values.
pub record Libraries (D F J : Type 0) : Type 0 where
  pub env : Env D
  pub prims : Primitives D
  pub floats : Floats D F
  pub reparse : ℕ → Option ℕ
  pub jwt : Jwt
  pub json : Json J
  -- The router for these routes, at a method and a path.
  pub find : List Route → String → String → Found
  -- chimw.AllowContentType: whether the request goes on.
  pub allow_content_type : String → Request → Bool
  pub decode : (e : Endpoint) → Request → Decoded F e

-- The tables with what belongs to them, and the log, the newest line first.
pub record World (D : Type 0) : Type 0 where
  pub session : Session D
  pub log : List Entry

module _ {D F J : Type 0} (libs : Libraries D F J) (config : Config) where
  open libs use {env, prims, floats, reparse, jwt, json, find, allow_content_type, decode}

  abbrev pub Next : Type 0
  Next = Request → World D → Served (Body D F) × World D

  abbrev pub only_status : ℕ → Body D F → Served (Body D F)
  only_status n b = record {
    response = record { status = n; headers = []; body = b };
    log_user = 0;
  }

  abbrev pub with_headers : List (String × String) → Served (Body D F) → Served (Body D F)
  with_headers [] r = r
  with_headers ((name, value) ∷ rest) r =
      let r' = with_headers rest r in
      record r' { response = record r'.response { headers = (name, value) ∷ r'.response.headers } }

  abbrev pub as_user : ℕ → Served (Body D F) → Served (Body D F)
  as_user id r = record r { log_user = id }

  -- The next number of the environment is used up.
  abbrev pub tick : World D → World D
  tick w = record w { session = record w.session { step = suc w.session.step } }

  abbrev pub in_world : World D → Response (Body D F) × Session D → Served (Body D F) × World D
  in_world w (r, s) = (record { response = r; log_user = 0 }, record w { session = s })

  abbrev pub decoded_by :
      {e : Endpoint} → Decoded F e → Identity → World D → Served (Body D F) × World D
  decoded_by (malformed e) who w = (only_status 400 (undecoded (request_error_handler e)), w)
  decoded_by (decoded args) who w =
      in_world w (handle env prims floats reparse config args who w.session)

  -- A method of `wrapper`
  unfoldable pub endpoint : Endpoint → Identity → Next
  endpoint e who r w = decoded_by (decode e r) who w

  abbrev pub admit : Verdict → (Identity → Next) → Next
  admit (rejected c) next r w = (only_status 401 (unauthorized c), w)
  admit (accepted who) next r w =
      let (served, w') = next who r w in (as_user who.user_id served, w')

  -- `mw.Auth(cfg.JWTSecret)`
  unfoldable pub with_auth : (Identity → Next) → Next
  with_auth next r w =
      admit (authenticate jwt config.jwt_secret (env.clock w.session.step) r.authorization) next r
        (tick w)

  abbrev pub by_chi : Response String → Served (Body D F)
  by_chi a = record {
    response = record { status = a.status; headers = a.headers; body = plain a.body };
    log_user = 0;
  }

  -- The handler of a route, and those of chi for no route
  abbrev pub routed : Found → Next
  routed (unrouted a) r w = (by_chi a, w)
  routed (route t) r w =
      if t.is_protected then with_auth (endpoint t.endpoint) r w else endpoint t.endpoint nobody r w

  unfoldable pub router : Next
  router r w = routed (find routes r.method r.path) r w

  abbrev logged : ℕ → Request → Served (Body D F) × World D → Served (Body D F) × World D
  logged id r (served, w) = (
    with_headers (("X-Request-Id", jwt.uuid_string id) ∷ []) served,
    record w { log = entry_of json id r served ∷ w.log },
  )

  -- `mw.Logger`
  unfoldable pub with_log : Next → Next
  with_log next r w = let id = env.uuid w.session.step in logged id r (next (passed_on r) (tick w))

  abbrev pub cors_headers : List (String × String)
  cors_headers =
      ("Access-Control-Allow-Origin", "*")
      ∷ ("Access-Control-Allow-Methods", "GET, POST, PUT, DELETE, OPTIONS")
      ∷ ("Access-Control-Allow-Headers", "Authorization, Content-Type")
      ∷ []

  -- The function literal that sets the headers
  unfoldable pub with_cors : Next → Next
  with_cors next r w =
      if str_eq r.method "OPTIONS"
      then (with_headers cors_headers (only_status 204 blank), w)
      else (let (served, w') = next r w in (with_headers cors_headers served, w'))

  -- What `NewRouter` returns; `Recoverer` passes on what does not panic.
  unfoldable pub serve_http : Next
  serve_http r w =
      if allow_content_type "application/json" r
      then with_cors (with_log router) r w
      else (only_status 415 blank, w)

  -- The world after the requests.
  unfoldable pub serve_all : List Request → World D → World D
  serve_all [] w = w
  serve_all (r ∷ rs) w = serve_all rs (serve_http r w).1
