-- ===== src/App/Turns/Served.antt =====
-- What the whole server does to the tables at a request, by what its endpoints do.
use soa_hw.Base.{◌≡◌, refl, str_eq, Bool-cases, inl, inr}
use soa_hw.Store.Schema.{Db}
use soa_hw.Store.Session.{Session}
use soa_hw.Middleware.Http.{Request}
use soa_hw.Middleware.Auth.{Identity, nobody, Verdict, rejected, accepted, authenticate}
use soa_hw.Middleware.Logging.{passed_on}
use soa_hw.Middleware.Logging.Passing.{passed_on-authorization}
use soa_hw.App.Routes.{Endpoint, Found, route, unrouted}
use soa_hw.App.Endpoints.{Config, Args, handle}
use soa_hw.App.Server.{
  Libraries, World, Next, Decoded, malformed, decoded, decoded_by, endpoint, admit, with_auth,
  routed, router, with_log, with_cors, serve_http, tick,
}
use soa_hw.App.Elsewhere.{Elsewhere-refl}
use soa_hw.App.Turns.{Turn, apart, handle-Turn}

module _ {D F J : Type 0} (libs : Libraries D F J) (config : Config) where
  -- Whoever the token is accepted for
  abbrev pub IsCaller : Request → World D → Identity → Type 0
  IsCaller r w who =
      authenticate libs.jwt config.jwt_secret (libs.env.clock w.session.step) r.authorization
      ≡ accepted who

  -- Every endpoint relates the tables so, for this caller.
  abbrev pub IsSafe : (Db D → Db D → Type 0) → Identity → Type 0
  IsSafe R who =
      (e : Endpoint) (args : Args F e) (s : Session D)
      → R s.db (handle libs.env libs.prims libs.floats libs.reparse config args who s).1.db

  module _ (R : Db D → Db D → Type 0) (R-refl : (db : Db D) → R db db) where
    -- For every caller that the request can have.
    abbrev HasSafeCallers : Request → World D → Type 0
    HasSafeCallers r w = (who : Identity) → IsCaller r w who → IsSafe R who

    abbrev KeepsAt : Next libs config → Request → World D → Type 0
    KeepsAt next r w = R w.session.db (next r w).1.session.db

    decoded_by-keeps :
        {e : Endpoint} (d : Decoded F e) (who : Identity) (w : World D)
        → IsSafe R who
        → R w.session.db (decoded_by libs config d who w).1.session.db
    decoded_by-keeps (malformed _) who w safe = R-refl _
    decoded_by-keeps (decoded args) who w safe = safe _ args w.session

    endpoint-keeps :
        (e : Endpoint) (who : Identity) (r : Request) (w : World D)
        → IsSafe R who
        → KeepsAt (endpoint libs config e who) r w
    unfolding endpoint
    endpoint-keeps e who r w safe = decoded_by-keeps (libs.decode e r) who w safe

    admit-keeps :
        (v : Verdict) (next : Identity → Next libs config) (r : Request) (w : World D)
        → ((who : Identity) → v ≡ accepted who → KeepsAt (next who) r w)
        → KeepsAt (admit libs config v next) r w
    admit-keeps (rejected c) next r w h = R-refl _
    admit-keeps (accepted who) next r w h = h who refl

    routed-keeps :
        (f : Found) (r : Request) (w : World D)
        → IsSafe R nobody
        → HasSafeCallers r w
        → KeepsAt (routed libs config f) r w
    unfolding with_auth
    routed-keeps (unrouted a) r w public callers = R-refl _
    routed-keeps (route t) r w public callers = elim (Bool-cases t.is_protected) [
      | inl inside ↦ rw inside (
          admit-keeps _ (endpoint libs config t.endpoint) r (tick libs config w)
            λ who e. endpoint-keeps t.endpoint who r (tick libs config w) (callers who e))
      | inr outside ↦ rw outside (endpoint-keeps t.endpoint _ r w public)
    ]

    with_log-keeps :
        (r : Request) (w : World D)
        → IsSafe R nobody
        → HasSafeCallers r (tick libs config w)
        → KeepsAt (with_log libs config (router libs config)) r w
    unfolding with_log router
    with_log-keeps r w public callers =
        routed-keeps _ (passed_on r) (tick libs config w) public
          λ who e. callers who (rw (passed_on-authorization r) at e)

    with_cors-keeps :
        (next : Next libs config) (r : Request) (w : World D)
        → KeepsAt next r w
        → KeepsAt (with_cors libs config next) r w
    unfolding with_cors
    with_cors-keeps next r w h = elim (Bool-cases (str_eq r.method "OPTIONS")) [
      | inl asked ↦ rw asked (R-refl _)
      | inr other ↦ rw other h
    ]

    -- What every endpoint does to the tables for nobody, and for the caller of the request if it
    -- has one, the server does.
    pub serve_http-keeps :
        (r : Request) (w : World D)
        → IsSafe R nobody
        → HasSafeCallers r (tick libs config w)
        → KeepsAt (serve_http libs config) r w
    unfolding serve_http
    serve_http-keeps r w public callers =
        elim (Bool-cases (libs.allow_content_type "application/json" r)) [
          | inl allowed ↦ rw allowed (with_cors-keeps _ r w (with_log-keeps r w public callers))
          | inr other ↦ rw other (R-refl _)
        ]

  Turn-IsSafe : (who : Identity) → IsSafe (Turn libs.env config.order_rate_limit_minutes) who
  Turn-IsSafe who e args s =
      handle-Turn libs.env libs.prims libs.floats libs.reparse config args who s

  -- One turn.
  pub serve_http-IsTurn :
      (r : Request) (w : World D)
      → Turn libs.env config.order_rate_limit_minutes w.session.db
          (serve_http libs config r w).1.session.db
  serve_http-IsTurn r w =
      serve_http-keeps (Turn libs.env config.order_rate_limit_minutes)
        (λ db. apart (Elsewhere-refl db)) r w (Turn-IsSafe nobody) λ who _. Turn-IsSafe who
