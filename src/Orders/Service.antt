-- ===== src/Orders/Service.antt =====
-- The methods of `OrderService` in internal/service/orders.go.
use soa_hw.Base.{
  ℕ, String, Bool, true, false, not, ◌&&◌, ◌||◌, Option, none, some, ltb, leb, if◌then◌else◌,
}
use soa_hw.ApiErr.{
  order_has_active, order_not_found, order_ownership_violation, invalid_state_transition,
  promo_code_invalid, promo_code_min_amount, min_order_amount,
}
use soa_hw.Store.Schema.{Order, PromoCode, OrderStatus, created, canceled, OperationType}
use soa_hw.Store.Env.{Env}
use soa_hw.Store.Session.{
  Action, Result, ok, err, no_rows, raise, raise_if, pure, attempt, or_no_rows, pool, tx, in_tx,
  time_now, ◌>>=◌, ◌>>◌,
}
use soa_hw.Store.Queries.{
  get_order_by_id, get_active_order_by_user_id, get_promo_code_by_code,
  get_promo_code_by_id_for_update, increment_promo_uses, decrement_promo_uses, create_order,
  update_order_status, update_order_amounts, get_order_items, delete_order_items,
  create_user_operation, is_active,
}
use soa_hw.Orders.Discount.{calc_discount}
use soa_hw.Orders.Types.{
  CreateOrderInput, UpdateOrderInput, OrderWithItems, app_error, app_error_with, is_foreign,
  check_rate_limit,
}
use soa_hw.Orders.Loops.{take_items, create_items, restore_all}

-- `total`, `discount` and `promoCodeID` once the promo code is applied.
pub record Priced (D : Type 0) : Type 0 where
  pub total : D
  pub discount : D
  pub promo_code_id : Option ℕ

abbrev pub is_created : OrderStatus → Bool
is_created created = true
is_created _ = false

module _ {D : Type 0} where
  -- `now.Before(promo.ValidFrom.Time) || now.After(promo.ValidUntil.Time)`
  abbrev pub is_out_of_time : ℕ → PromoCode D → Bool
  is_out_of_time now p = ltb now p.valid_from || ltb p.valid_until now

  -- `GetActiveOrderByUserID` has to find nothing.
  unfoldable pub none_active : Result D (Order D) → Action D (Unit {0})
  none_active (ok o) = raise (app_error order_has_active)
  none_active (err no_rows) = pure tt
  none_active (err e) = raise e

  module _ (env : Env D) where
    open env use {decimal}
    open decimal use {zero, sub, less_than, greater_than_or_equal}

    -- `if in.PromoCode != nil`
    unfoldable pub apply_promo : Option String → D → Action D (Priced D)
    apply_promo none total = pure record { total = total; discount = zero; promo_code_id = none }
    apply_promo (some code) total = do
      p ← or_no_rows (tx env (get_promo_code_by_code code)) (app_error promo_code_invalid)
      now ← time_now env
      raise_if (not p.active || leb p.max_uses p.current_uses || is_out_of_time now p)
          (app_error promo_code_invalid)
      raise_if (less_than total p.min_order_amount)
          (app_error_with promo_code_min_amount (min_order_amount p.min_order_amount))
      let discount = calc_discount decimal total p
      tx env (increment_promo_uses p.id)
      pure record { total = sub total discount; discount = discount; promo_code_id = some p.id }

    -- `Create` between Begin and Commit
    unfoldable pub create_body : CreateOrderInput → Action D (OrderWithItems D)
    create_body in_ = do
      active ← attempt (tx env (get_active_order_by_user_id in_.user_id))
      none_active active
      taken ← take_items env in_.items
      priced ← apply_promo in_.promo_code taken.1
      o ←
          tx env
            (create_order decimal in_.user_id priced.promo_code_id priced.total priced.discount)
      is ← create_items env o.id taken.0
      tx env (create_user_operation in_.user_id OperationType.create_order)
      pure record { order = o; items = is }

    -- `Get`
    unfoldable pub get : ℕ → ℕ → String → Action D (OrderWithItems D)
    get id caller role = do
      o ← or_no_rows (pool env (get_order_by_id id)) (app_error order_not_found)
      raise_if (is_foreign role caller o) (app_error order_ownership_violation)
      is ← pool env (get_order_items id)
      pure record { order = o; items = is }

    -- `promo.Active && promo.CurrentUses <= promo.MaxUses && …`: the code still applies.
    abbrev pub still_applies : ℕ → D → PromoCode D → Bool
    still_applies now total p =
        p.active
        && leb p.current_uses p.max_uses
        && not (is_out_of_time now p)
        && greater_than_or_equal total p.min_order_amount

    -- The `if err == nil` of `Update`: a failed query leaves the code and gives no discount.
    unfoldable pub reprice_found : ℕ → D → Result D (PromoCode D) → Action D (D × Option ℕ)
    reprice_found id total (err e) = pure (zero, some id)
    reprice_found id total (ok p) = do
      now ← time_now env
      if still_applies now total p
          then pure (calc_discount decimal total p, some id)
          else (do attempt (tx env (decrement_promo_uses id)); pure (zero, none))

    -- `if order.PromoCodeID.Valid`: the discount and the promo code's id.
    unfoldable pub reprice : Option ℕ → D → Action D (D × Option ℕ)
    reprice none total = pure (zero, none)
    reprice (some id) total = do
      p ← attempt (tx env (get_promo_code_by_id_for_update id))
      reprice_found id total p

    -- `Update` between Begin and Commit, for the order that was read before
    unfoldable pub update_body : Order D → UpdateOrderInput → Action D (OrderWithItems D)
    update_body order in_ = do
      old ← tx env (get_order_items in_.order_id)
      restore_all env old
      taken ← take_items env in_.items
      priced ← reprice order.promo_code_id taken.1
      tx env (delete_order_items in_.order_id)
      o ←
          tx env
            (update_order_amounts decimal in_.order_id (sub taken.1 priced.0) priced.0 priced.1)
      is ← create_items env in_.order_id taken.0
      tx env (create_user_operation in_.caller_id OperationType.update_order)
      pure record { order = o; items = is }

    -- `if order.PromoCodeID.Valid { _ = qtx.DecrementPromoUses(…) }`
    abbrev pub refund_promo : Option ℕ → Action D (Unit {0})
    refund_promo none = pure tt
    refund_promo (some id) = do attempt (tx env (decrement_promo_uses id)); pure tt

    -- `Cancel` between Begin and Commit, for the order that was read before
    unfoldable pub cancel_body : ℕ → Order D → Action D (OrderWithItems D)
    cancel_body id order = do
      is ← tx env (get_order_items id)
      restore_all env is
      refund_promo order.promo_code_id
      o ← tx env (update_order_status id canceled)
      pure record { order = o; items = is }

    -- The reads and checks of `Cancel` before its transaction
    unfoldable pub cancel_check : ℕ → ℕ → String → Action D (Order D)
    cancel_check id caller role = do
      order ← or_no_rows (pool env (get_order_by_id id)) (app_error order_not_found)
      raise_if (is_foreign role caller order) (app_error order_ownership_violation)
      raise_if (not (is_active order.status)) (app_error invalid_state_transition)
      pure order

    unfoldable pub cancel : ℕ → ℕ → String → Action D (OrderWithItems D)
    cancel id caller role = do order ← cancel_check id caller role; in_tx env (cancel_body id order)

    module _ (rate_limit_minutes : ℕ) where
      unfoldable pub create : CreateOrderInput → Action D (OrderWithItems D)
      create in_ = do
        check_rate_limit env rate_limit_minutes in_.user_id OperationType.create_order
        in_tx env (create_body in_)

      -- The reads and checks of `Update` before its transaction
      unfoldable pub update_check : UpdateOrderInput → Action D (Order D)
      update_check in_ = do
        order ← or_no_rows (pool env (get_order_by_id in_.order_id)) (app_error order_not_found)
        raise_if (is_foreign in_.caller_role in_.caller_id order)
            (app_error order_ownership_violation)
        raise_if (not (is_created order.status)) (app_error invalid_state_transition)
        check_rate_limit env rate_limit_minutes in_.caller_id OperationType.update_order
        pure order

      unfoldable pub update : UpdateOrderInput → Action D (OrderWithItems D)
      update in_ = do order ← update_check in_; in_tx env (update_body order in_)
