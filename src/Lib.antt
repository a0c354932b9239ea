-- ===== src/Lib.antt =====
-- The core of a marketplace service: orders with stock, promo codes and rate limits, the product
-- catalogue, accounts with refresh tokens, and the HTTP handlers of these, over the tables of
-- PostgreSQL.
--
-- The parts, and the files that model them:
-- - ApiErr: internal/apierr/errors.go, the error codes with their HTTP statuses.
-- - Store.Schema: the tables and enums of internal/migrations/000001_init.up.sql, each table a
--   list of rows.
-- - Store.Queries: internal/db/queries, each statement a function of a fresh uuid, NOW() and the
--   tables, with the constraints that it can break. A statement that is refused writes nothing.
-- - Store.Session: what the services do with pgx: a query on the pool, a query in a transaction,
--   Begin, Commit and the deferred Rollback. Laws and Atomic hold the rules for success and for
--   rollback, Errors those for application errors, Pool what a single query comes to, Frame those
--   for what is left as it was, and Success those for what succeeds in a database that does not
--   fail.
-- - Orders: internal/service/orders.go. Types, Loops, Discount and Service are its methods;
--   Reads, Promo, Supply and Conserve show what each method does to stock, items and promo codes;
--   Errors which codes it returns; History what holds of any sequence of calls.
-- - Products: internal/service/products.go. Access, Changes, Pages and Errors are about owners,
--   writes, paging and the codes that it returns.
-- - Auth: internal/service/auth.go. Access is about Register, Login and what issueTokens stores,
--   Refresh about refresh tokens, Errors about the codes that it returns.
-- - Promos: internal/service/promo.go, with Codes for what it stores.
-- - Middleware: internal/middleware. Auth is auth.go, with Tokens for the access tokens of the
--   auth service; Logging is logging.go, with Masking for what it keeps out of the log and
--   Passing for what it hands on; Http has the requests and responses.
-- - Handler: internal/handler: Validation is validation.go, Response is handler.go and errors.go,
--   BadRequest is RequestErrorHandler, Orders, Products, Auth and Promos are orders.go,
--   products.go, auth.go and promo.go, with Requests for what is let through and Answers for what
--   is sent.
-- - App: internal/app/app.go. Routes, Endpoints and Server are NewRouter: the routes, the
--   endpoints behind them and the middleware before them. Elsewhere and Turns show what a request
--   does to the tables, Shop what holds over any requests, Book how the server implements a book
--   of orders, Door what a request without a token reaches, Buyers who can change orders,
--   Canceling a request from end to end, and Log what is logged.
-- - Config: internal/config/config.go.
-- - Examples: a small shop, and runs at concrete inputs.
--
-- A method is a function of the session to a result and the next session. A session has the
-- tables, the state of the open transaction, and the number of the next step; the environment
-- says for each step what the clock shows, which uuid is fresh, and whether the database fails. A
-- failure at a COMMIT, or at a query on the pool, may hide that it was carried out
-- (Env.committed). Every theorem is for every such environment unless it says otherwise, so
-- failures can come at any statement. Sessions run one after the other: interleavings of two
-- sessions and row locks are not modelled, but for the one schedule of
-- Orders.Conserve.Cancel.Overlap.
--
-- Bcrypt, JWT, SHA-256, uuid.New and the texts of errors are fields of Auth.Primitives, and a
-- theorem that needs something of them has it as a hypothesis. Decimals and floats are parameters
-- (Store.Env): a theorem on stock, items, statuses or codes holds for any of them. Uuids and
-- times are natural numbers, times in nanoseconds (a TIMESTAMPTZ column holds microseconds; what
-- it rounds off is kept). The order within one created_at, which ORDER BY created_at leaves open,
-- is a parameter of each query (Env.ties). Stock and quantities are natural numbers where the
-- column and the handler's checks keep them from being negative; an int32 that can wrap is an
-- integer with its conversion written out (Base.Int). All loops of the program run over a list
-- and are structural recursion, so there is no fuel.
--
-- The server is a function of a request and a world, which is a session and the log. go-chi, the
-- generated server, golang-jwt, encoding/json and the other libraries are fields of
-- App.Server.Libraries: the router is a function of the routes, which answers by itself where
-- there is none, and the generated server decodes a request for an endpoint to its arguments or
-- to an error.
--
-- Not modelled: message texts, JSON and the transport of HTTP, headers other than those of the
-- middleware (Content-Type is left out), the generated packages internal/api and
-- internal/db/sqlc, negative limits and times to live, panics and Recoverer, migrations and the
-- start of the process (cmd).
pub mod Base
pub mod ApiErr
pub mod Store
pub mod Orders
pub mod Products
pub mod Auth
pub mod Promos
pub mod Middleware
pub mod Handler
pub mod App
pub mod Config
pub mod Examples
