-- ===== src/Orders/Types.antt =====
-- The inputs and results of `OrderService`, and the checks that its methods share.
use soa_hw.Base.{
  ℕ, ◌+◌, ◌-◌, ◌*◌, ◌/◌, String, str_eq, Bool, not, ◌&&◌, List, Option, ltb, ◌==◌, if◌then◌else◌,
}
use soa_hw.Base.{leb}
use soa_hw.Base.Int.{ℤ, pos, sub_ℕ}
use soa_hw.ApiErr.{Code, Details, order_limit_exceeded, retry_after_seconds}
use soa_hw.ApiErr
use soa_hw.Store.Schema.{Product, Order, OrderItem, OperationType, UserOperation}
use soa_hw.Store.Env.{Env}
use soa_hw.Store.Session.{
  Error, Action, Result, ok, err, no_rows, app, raise, pure, attempt, pool, time_now, ◌>>=◌,
}
use soa_hw.Store.Queries.{get_last_user_operation}

pub record OrderItemInput : Type 0 where
  pub product_id : ℕ
  -- Not negative: the handler passes on what it has checked to lie in 1 .. 999.
  pub quantity : ℕ

pub record CreateOrderInput : Type 0 where
  pub user_id : ℕ
  pub items : List OrderItemInput
  pub promo_code : Option String

pub record UpdateOrderInput : Type 0 where
  pub order_id : ℕ
  pub caller_id : ℕ
  pub caller_role : String
  pub items : List OrderItemInput

pub record OrderWithItems (D : Type 0) : Type 0 where
  pub order : Order D
  pub items : List (OrderItem D)

-- `productEntry`
pub record Entry (D : Type 0) : Type 0 where
  pub product : Product D
  pub quantity : ℕ

-- time.Minute and time.Second
abbrev pub minute : ℕ
minute = 60000000000

abbrev pub second : ℕ
second = 1000000000

-- The whole seconds from `now` to `until`, cut towards 0.
abbrev pub seconds_between : ℕ → ℕ → ℤ
seconds_between now until =
    if leb now until then pos ((until - now) / second) else sub_ℕ 0 ((now - until) / second)

module _ {D : Type 0} where
  -- apierr.New, as an error
  abbrev pub app_error : Code → Error D
  app_error c = app (ApiErr.new c)

  abbrev pub app_error_with : Code → Details D → Error D
  app_error_with c d = app (ApiErr.new_with_details c d)

  -- `callerRole != "ADMIN" && order.UserID != callerID`
  abbrev pub is_foreign : String → ℕ → Order D → Bool
  is_foreign role caller o = not (str_eq role "ADMIN") && not (o.user_id == caller)

  module _ (env : Env D) where
    -- `time.Since(op.CreatedAt.Time) < limit`, and the seconds that are left at a later reading of
    -- the clock; int(…) drops the fraction.
    unfoldable pub too_soon : ℕ → ℕ → Action D (Unit {0})
    too_soon until now =
        if ltb now until
        then (do
          later ← time_now env
          raise (
              app_error_with order_limit_exceeded
                (retry_after_seconds (seconds_between later until))))
        else pure tt

    module _ (rate_limit_minutes : ℕ) where
      unfoldable pub answered : Result D UserOperation → Action D (Unit {0})
      answered (err no_rows) = pure tt
      answered (err e) = raise e
      answered (ok op) = do
        now ← time_now env
        too_soon (op.created_at + rate_limit_minutes * minute) now

      unfoldable pub check_rate_limit : ℕ → OperationType → Action D (Unit {0})
      check_rate_limit user type = do
        last ← attempt (pool env (get_last_user_operation user type))
        answered last
