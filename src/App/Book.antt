-- ===== src/App/Book.antt =====
-- The server of internal/app/app.go as an implementation of a book of orders.
use soa_hw.Base.{ℕ, refl, List}
use soa_hw.Store.Schema.{Db}
use soa_hw.Store.Env.{Env}
use soa_hw.Orders.Supply.Stock.{IsListed}
use soa_hw.Orders.Supply.Held.{AllHaveOrder}
use soa_hw.Orders.History.Book.{Move, idle, Moves, start, then_move, book_of, Step-Move}
use soa_hw.Middleware.Http.{Request}
use soa_hw.App.Endpoints.{Config}
use soa_hw.App.Server.{Libraries, World, serve_all}
use soa_hw.App.Turns.{Turn, apart, called}
use soa_hw.App.Shop.{Shop, Turn-Shop, Turn-Step, serve_all-keeps}

module _ {D : Type 0} where
  Turn-Move :
      (env : Env D) (limit pid : ℕ) (db db' : Db D)
      → Turn env limit db db'
      → IsListed pid db.products
      → AllHaveOrder db.orders db.order_items
      → Move (book_of db) (book_of db')
  Turn-Move env limit pid db db' (apart e) l closed = idle λ k. rw e.orders refl
  Turn-Move env limit pid db db' (called c s e f) l closed =
      Step-Move pid db db' (Turn-Step env limit pid c s db db' e f l closed)

module _ {D F J : Type 0} (libs : Libraries D F J) (config : Config) where
  -- In tables for which App.Shop.Shop holds, the server implements a book that holds the owner and
  -- the status of each order: any HTTP requests, one after the other, take the book through moves
  -- that each change nothing, open a new order in status CREATED for a user who has no active
  -- order, or turn an active order CANCELED.
  pub serve_all-Moves :
      (pid user code base : ℕ) (rs : List Request) (w : World D)
      → Shop pid user code base w.session.db
      → Moves (book_of w.session.db) (book_of (serve_all libs config rs w).session.db)
  serve_all-Moves pid user code base rs w h =
      let P : Db D → Type 0 =
        λ db. Shop pid user code base db × Moves (book_of w.session.db) (book_of db) in
      let done : P (serve_all libs config rs w).session.db =
        serve_all-keeps libs config P
          (λ db db' t k. (
            Turn-Shop libs.env config.order_rate_limit_minutes pid user code base db db' t k.0,
            then_move k.1 (
                Turn-Move libs.env config.order_rate_limit_minutes pid db db' t k.0.listed
                  k.0.closed),
          ))
          rs w (h, start) in
      done.1
