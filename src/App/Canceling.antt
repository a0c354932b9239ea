-- ===== src/App/Canceling.antt =====
-- A cancelation through the whole server of internal/app/app.go.
use soa_hw.Base.{ℕ, suc, str_eq, true, false, ◌≡◌, ◌≤◌, length, refl, some}
use soa_hw.Base.Rows.{find_row, filter_rows}
use soa_hw.Store.Schema.{Db, Order, canceled}
use soa_hw.Store.Session.{Error, Result, ok, err, Session}
use soa_hw.Store.Session.Success.{Gives}
use soa_hw.Store.Queries.{is_active, is_item_of}
use soa_hw.Store.Queries.Checks.{order_id}
use soa_hw.Orders.Types.{OrderWithItems, is_foreign}
use soa_hw.Orders.Conserve.Cancel.Room.{HasRoom}
use soa_hw.Orders.Conserve.Cancel.Succeeds.{IsCanceled, cancel-Gives}
use soa_hw.Middleware.Http.{Request, Served}
use soa_hw.Middleware.Auth.{Identity, accepted, authenticate}
use soa_hw.Middleware.Logging.{passed_on, body_limit}
use soa_hw.Middleware.Logging.Passing.{passed_on-short}
use soa_hw.Handler.Response.{
  Outcome, answered, call, unless, require_role, serve, contains, OrderResponse,
}
use soa_hw.Handler.Orders.{buyers}
use soa_hw.Handler.Orders as Orders
use soa_hw.App.Routes.{Route, routes, route, Endpoint, cancel_order}
use soa_hw.App.Endpoints.{Config, Body, cancels_order, order, written, handle}
use soa_hw.App.Server.{
  Libraries, World, decoded, decoded_by, endpoint, with_auth, router, with_log, with_cors,
  serve_http, tick,
}

module _ {D F J : Type 0} (libs : Libraries D F J) (config : Config) where
  -- The response is 200, and the order is found as CANCELED.
  pub record IsDone (id : ℕ) (p : Served (Body D F) × World D) : Type 0 where
    pub row : Order D
    pub status : p.0.response.status ≡ 200
    pub found : find_row order_id id p.1.session.db.orders ≡ some row
    pub is_canceled : row.status ≡ canceled

  answered_order :
      (id : ℕ) (shown : OrderWithItems D → OrderResponse F)
      (bad : Error D → Outcome D (OrderResponse F)) (r : Result D (OrderWithItems D) × Session D)
      → Gives (λ o t. IsCanceled id o t.db) r
      → (row : Order D) × ((written {D = D} {F = F} order
            (serve (answered bad (λ o. Outcome.success 200 (shown o)) r).0)).status
          ≡ 200)
        × (find_row order_id id (answered bad (λ o. Outcome.success 200 (shown o)) r).1.db.orders
            ≡ some row)
        × (row.status ≡ canceled)
  unfolding Gives serve
  answered_order id shown bad (ok o, t) h = (o.order, refl, h.1, h.0)
  answered_order id shown bad (err e, t) h = elim h [ ]

  module _ (id : ℕ) (who : Identity) (o : Order D) where
    -- What the caller and the tables have to be like.
    pub record CanCancel (db : Db D) : Type 0 where
      pub no_fault : (k : ℕ) → libs.env.fault k ≡ false
      pub found : find_row order_id id db.orders ≡ some o
      pub allowed : contains buyers who.role ≡ true
      pub own : is_foreign who.role who.user_id o ≡ false
      pub active : is_active o.status ≡ true
      pub room : HasRoom (filter_rows (is_item_of id) db.order_items) db

    handled :
        (w : World D)
        → CanCancel w.session.db
        → IsDone id (decoded_by libs config (decoded (cancels_order id)) who w)
    unfolding handle Orders.cancel_order unless require_role call
    handled w h =
        let (row, status, found, is_canceled) = answered_order id _ _ _ (
          cancel-Gives libs.env h.no_fault id who.user_id who.role o w.session h.found h.own
            h.active h.room) in
        rw h.allowed
          (record { row = row; status = status; found = found; is_canceled = is_canceled })

    module _ (r : Request) (t : Route) where
      -- What the libraries make of the request.
      pub record IsCancelation (w : World D) : Type 0 where
        pub is_json : libs.allow_content_type "application/json" r ≡ true
        pub is_post : str_eq r.method "OPTIONS" ≡ false
        pub short : length r.body ≤ body_limit
        pub routed_to : libs.find routes r.method r.path ≡ route t
        pub to_cancel : Path Endpoint t.endpoint cancel_order
        pub is_protected : t.is_protected ≡ true
        pub understood : libs.decode cancel_order r ≡ decoded (cancels_order id)
        pub known :
            authenticate libs.jwt config.jwt_secret
              (libs.env.clock (suc w.session.step))
              r.authorization
            ≡ accepted who

      endpoint-IsDone :
          (w : World D)
          → CanCancel w.session.db
          → libs.decode cancel_order r ≡ decoded (cancels_order id)
          → IsDone id (endpoint libs config cancel_order who r w)
      unfolding endpoint
      endpoint-IsDone w h e = rw e (handled w h)

      with_auth-IsDone :
          (w : World D)
          → CanCancel w.session.db
          → libs.decode cancel_order r ≡ decoded (cancels_order id)
          → authenticate libs.jwt config.jwt_secret (libs.env.clock w.session.step) r.authorization
            ≡ accepted who
          → IsDone id (with_auth libs config (endpoint libs config cancel_order) r w)
      unfolding with_auth
      with_auth-IsDone w h e known =
          let done : IsDone id (endpoint libs config cancel_order who r (tick libs config w)) =
            endpoint-IsDone (tick libs config w) h e in
          rw known (record {
            row = done.row;
            status = done.status;
            found = done.found;
            is_canceled = done.is_canceled;
          })

      router-IsDone :
          (w : World D)
          → CanCancel w.session.db
          → IsCancelation w
          → IsDone id (router libs config r (tick libs config w))
      unfolding router
      router-IsDone w h c =
          rw (c.routed_to, c.is_protected, c.to_cancel)
            (with_auth-IsDone (tick libs config w) h c.understood c.known)

      with_log-IsDone :
          (w : World D)
          → CanCancel w.session.db
          → IsCancelation w
          → IsDone id (with_log libs config (router libs config) r w)
      unfolding with_log
      with_log-IsDone w h c =
          let done : IsDone id (router libs config (passed_on r) (tick libs config w)) =
            rw (passed_on-short r c.short) (router-IsDone w h c) in
          record {
            row = done.row;
            status = done.status;
            found = done.found;
            is_canceled = done.is_canceled;
          }

      -- For a request that goes on to the route of CancelOrder, is not OPTIONS, has at most 64 KiB
      -- and can be decoded, with a token that Auth accepts, in a database that does not fail,
      -- where the order is there and active, the caller has the role USER or ADMIN and is the
      -- owner or an ADMIN, and the stock columns have room for the units of the items: the server
      -- answers 200, and the order is found as CANCELED.
      pub serve_http-IsDone :
          (w : World D)
          → CanCancel w.session.db
          → IsCancelation w
          → IsDone id (serve_http libs config r w)
      unfolding serve_http with_cors
      serve_http-IsDone w h c =
          let done : IsDone id (with_log libs config (router libs config) r w) =
            with_log-IsDone w h c in
          rw (c.is_json, c.is_post)
            (record {
              row = done.row;
              status = done.status;
              found = done.found;
              is_canceled = done.is_canceled;
            })
