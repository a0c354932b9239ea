-- ===== src/App/Shop.antt =====
-- What holds of the tables over any requests to the server.
use soa_hw.Base.{ℕ, ◌≡◌, refl, sym, some, List, [], ◌∷◌}
use soa_hw.Base.Rows.{find_row}
use soa_hw.Store.Schema.{Db, Order}
use soa_hw.Store.Env.{Env}
use soa_hw.Store.Session.{Session}
use soa_hw.Store.Queries.Checks.{order_id}
use soa_hw.Orders.Supply.{Accounts, supply}
use soa_hw.Orders.Supply.Stock.{IsListed}
use soa_hw.Orders.Supply.Held.{AllHaveOrder}
use soa_hw.Orders.History.{Call, perform}
use soa_hw.Orders.History.Steps.{Step, perform-Step}
use soa_hw.Orders.History.Units.{Step-Accounts}
use soa_hw.Orders.History.Status.{Kept, Kept-trans, Step-Kept, OneActive, Step-OneActive, stays}
use soa_hw.Orders.History.Codes.{UsesHeld, Step-UsesHeld}
use soa_hw.Middleware.Http.{Request}
use soa_hw.App.Endpoints.{Config}
use soa_hw.App.Server.{Libraries, World, serve_http, serve_all}
use soa_hw.App.Elsewhere.{Elsewhere}
use soa_hw.App.Turns.{Turn, apart, called}
use soa_hw.App.Turns.Served.{serve_http-IsTurn}

-- The product `pid` is listed, every item belongs to an order, order ids are distinct, the user has
-- at most one active order, and the uses of the promo code are `base` and those of its orders.
pub record Shop {D : Type 0} (pid user code base : ℕ) (db : Db D) : Type 0 where
  pub listed : IsListed pid db.products
  pub closed : AllHaveOrder db.orders db.order_items
  pub one : OneActive user db
  pub held : UsesHeld code base db

module _ {D : Type 0} where
  Step-Shop :
      (pid user code base : ℕ) (db db' : Db D)
      → Step pid db db'
      → Shop pid user code base db
      → Shop pid user code base db'
  Step-Shop pid user code base db db' st h =
      let acc : Accounts pid (supply pid db) db' =
        Step-Accounts pid (supply pid db) db db'
          (record { units = refl; listed = h.listed; closed = h.closed }) st in
      record {
        listed = acc.listed;
        closed = acc.closed;
        one = Step-OneActive pid user db db' st h.one;
        held = Step-UsesHeld pid code base db db' st h.held;
      }

  Elsewhere-Shop :
      (pid user code base : ℕ) (db db' : Db D)
      → Elsewhere db db'
      → Shop pid user code base db
      → Shop pid user code base db'
  Elsewhere-Shop pid user code base db db' e h = record {
    listed = e.listed pid h.listed;
    closed = rw (e.orders, e.order_items) h.closed;
    one = record { keyed = rw e.orders h.one.keyed; active = rw e.orders h.one.active };
    held = record {
      listed = rw (e.codes code h.held.listed) h.held.listed;
      keyed = rw e.orders h.held.keyed;
      uses = rw (e.codes code h.held.listed, e.orders) h.held.uses;
    };
  }

  -- An order stays while the shop stays.
  Elsewhere-Kept :
      (id : ℕ) (o : Order D) (db db' : Db D) → Elsewhere db db' → Kept id o db → Kept id o db'
  Elsewhere-Kept id o db db' e k = record {
    order = k.order;
    found = rw e.orders k.found;
    owner = k.owner;
    status = k.status;
  }

  pub Turn-Step :
      (env : Env D) (limit pid : ℕ) (c : Call) (s : Session D) (db db' : Db D)
      → s.db ≡ db
      → db' ≡ (perform env limit c s).1.db
      → IsListed pid db.products
      → AllHaveOrder db.orders db.order_items
      → Step pid db db'
  Turn-Step env limit pid c s db db' e f l closed =
      rw (sym e, f) (perform-Step env limit pid c s (rw e l) (rw e closed))

  pub Turn-Shop :
      (env : Env D) (limit pid user code base : ℕ) (db db' : Db D)
      → Turn env limit db db'
      → Shop pid user code base db
      → Shop pid user code base db'
  Turn-Shop env limit pid user code base db db' (apart e) h =
      Elsewhere-Shop pid user code base db db' e h
  Turn-Shop env limit pid user code base db db' (called c s e f) h =
      Step-Shop pid user code base db db' (Turn-Step env limit pid c s db db' e f h.listed h.closed)
        h

  Turn-Kept :
      (env : Env D) (limit pid id : ℕ) (o : Order D) (db db' : Db D)
      → Turn env limit db db'
      → IsListed pid db.products
      → AllHaveOrder db.orders db.order_items
      → Kept id o db
      → Kept id o db'
  Turn-Kept env limit pid id o db db' (apart e) l closed k = Elsewhere-Kept id o db db' e k
  Turn-Kept env limit pid id o db db' (called c s e f) l closed k =
      Kept-trans id o db db' k
        (Step-Kept pid id _ db db' k.found (Turn-Step env limit pid c s db db' e f l closed))

module _ {D F J : Type 0} (libs : Libraries D F J) (config : Config) where
  -- A property that every turn keeps is kept by any requests.
  pub serve_all-keeps :
      (P : Db D → Type 0)
      → ((db db' : Db D) → Turn libs.env config.order_rate_limit_minutes db db' → P db → P db')
      → (rs : List Request) (w : World D) → P w.session.db
      → P (serve_all libs config rs w).session.db
  unfolding serve_all
  serve_all-keeps P keeps [] w h = h
  serve_all-keeps P keeps (r ∷ rs) w h =
      serve_all-keeps P keeps rs (serve_http libs config r w).1
        (keeps _ _ (serve_http-IsTurn libs config r w) h)

  -- In a shop that lists some product, where every item belongs to an order, order ids are
  -- distinct, a user has at most one active order, and the uses of a promo code are some that
  -- belong to no order and one for each order that names the code and is not canceled: the same
  -- holds, for the same product, user, code and number, after any HTTP requests to the server, one
  -- after the other, by any callers, with any bodies and any failures of the database.
  pub serve_all-Shop :
      (pid user code base : ℕ) (rs : List Request) (w : World D)
      → Shop pid user code base w.session.db
      → Shop pid user code base (serve_all libs config rs w).session.db
  serve_all-Shop pid user code base rs w h =
      serve_all-keeps (Shop pid user code base)
        (Turn-Shop libs.env config.order_rate_limit_minutes pid user code base) rs w h

  -- In tables for which Shop holds: an order that is there is there after any HTTP requests to the
  -- server, one after the other, with the same owner, and with its old status or, if that was
  -- CREATED or PAYMENT_PENDING, with its old status or CANCELED.
  pub serve_all-Kept :
      (pid user code base id : ℕ) (o : Order D) (rs : List Request) (w : World D)
      → Shop pid user code base w.session.db
      → find_row order_id id w.session.db.orders ≡ some o
      → Kept id o (serve_all libs config rs w).session.db
  serve_all-Kept pid user code base id o rs w h found =
      let P : Db D → Type 0 = λ db. Shop pid user code base db × Kept id o db in
      let done : P (serve_all libs config rs w).session.db =
        serve_all-keeps P
          (λ db db' t h. (
            Turn-Shop libs.env config.order_rate_limit_minutes pid user code base db db' t h.0,
            Turn-Kept libs.env config.order_rate_limit_minutes pid id o db db' t h.0.listed
                h.0.closed h.1,
          ))
          rs w (h, record { order = o; found = found; owner = refl; status = stays refl }) in
      done.1
