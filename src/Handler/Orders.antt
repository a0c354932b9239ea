-- ===== src/Handler/Orders.antt =====
-- internal/handler/orders.go. The caller's id and role come from the request's context.
pub mod Requests
pub mod Answers
use soa_hw.Base.{
  ℕ, suc, String, Bool, true, false, if◌then◌else◌, List, [], ◌∷◌, length, Option, none, some,
}
use soa_hw.Base.Int.{ℤ, pos, above, to_int32}
use soa_hw.ApiErr.{
  Code, Field, named, quantity_of, product_not_found, product_inactive, order_not_found,
  order_limit_exceeded, order_has_active, invalid_state_transition, insufficient_stock,
  promo_code_invalid, promo_code_min_amount, order_ownership_violation, access_denied,
  validation_error,
}
use soa_hw.Store.Env.{Env, Floats}
use soa_hw.Store.Session.{Error}
use soa_hw.Orders.Types.{OrderItemInput, CreateOrderInput, UpdateOrderInput, OrderWithItems}
use soa_hw.Orders.Service
use soa_hw.Handler.Validation.{
  Validator, min_int, max_int, pattern_check, verdict, is_promo_code_pattern,
}
use soa_hw.Handler.Response.{
  ErrorResponse, Outcome, success, refusal, failure, nothing, Handled, OrderResponse, err_json,
  app_err_code, require_role, unless, call, to_order_response, switched,
}

-- api.OrderItemCreate, OrderCreate and OrderUpdate
pub record OrderItemCreate : Type 0 where
  pub product_id : ℕ
  pub quantity : ℤ

pub record OrderCreate : Type 0 where
  pub items : List OrderItemCreate
  pub promo_code : Option String

pub record OrderUpdate : Type 0 where
  pub items : List OrderItemCreate

-- `for i, it := range req.Body.Items`
check_quantities : ℕ → List OrderItemCreate → Validator → Validator
check_quantities i [] v = v
check_quantities i (it ∷ its) v =
    check_quantities (suc i) its
      (max_int (quantity_of i) it.quantity 999 (min_int (quantity_of i) it.quantity 1 v))

unfoldable pub check_items : List OrderItemCreate → Validator → Validator
unfolding check_quantities
check_items its v =
    check_quantities 0 its (
      max_int (named "items") (pos (length its)) 50
        (min_int (named "items") (pos (length its)) 1 v))

unfoldable pub check_promo_code : Option String → Validator → Validator
check_promo_code none v = v
check_promo_code (some code) v = pattern_check "promo_code" code is_promo_code_pattern v

-- The quantity is not negative: the checks are made before.
unfoldable pub item_inputs : List OrderItemCreate → List OrderItemInput
item_inputs [] = []
item_inputs (it ∷ its) =
    record { product_id = it.product_id; quantity = above (to_int32 it.quantity) } ∷ item_inputs its

abbrev pub create_input : ℕ → OrderCreate → CreateOrderInput
create_input caller body = record {
  user_id = caller;
  items = item_inputs body.items;
  promo_code = body.promo_code;
}

abbrev pub update_input : ℕ → ℕ → String → OrderUpdate → UpdateOrderInput
update_input id caller role body = record {
  order_id = id;
  caller_id = caller;
  caller_role = role;
  items = item_inputs body.items;
}

abbrev pub buyers : List String
buyers = "USER" ∷ "ADMIN" ∷ []

module _ {D A : Type 0} where
  create_switch : Code → ErrorResponse D → Outcome D A
  create_switch order_limit_exceeded r = refusal 429 r
  create_switch order_has_active r = refusal 409 r
  create_switch product_inactive r = refusal 409 r
  create_switch insufficient_stock r = refusal 409 r
  create_switch product_not_found r = refusal 404 r
  create_switch promo_code_invalid r = refusal 422 r
  create_switch promo_code_min_amount r = refusal 422 r
  create_switch validation_error r = refusal 400 r
  create_switch access_denied r = refusal 403 r
  create_switch _ r = nothing

  -- `mapOrderCreateErr`
  unfoldable pub map_order_create_err : Error D → Outcome D A
  unfolding create_switch err_json app_err_code
  map_order_create_err e = create_switch (app_err_code e) (err_json e)

  get_switch : Code → ErrorResponse D → Outcome D A → Outcome D A
  get_switch order_not_found r other = refusal 404 r
  get_switch order_ownership_violation r other = refusal 403 r
  get_switch access_denied r other = refusal 403 r
  get_switch _ r other = other

  update_switch : Code → ErrorResponse D → Outcome D A → Outcome D A
  update_switch order_not_found r other = refusal 404 r
  update_switch order_ownership_violation r other = refusal 403 r
  update_switch access_denied r other = refusal 403 r
  update_switch invalid_state_transition r other = refusal 409 r
  update_switch product_inactive r other = refusal 409 r
  update_switch insufficient_stock r other = refusal 409 r
  update_switch order_limit_exceeded r other = refusal 429 r
  update_switch product_not_found r other = refusal 404 r
  update_switch _ r other = other

  cancel_switch : Code → ErrorResponse D → Outcome D A → Outcome D A
  cancel_switch order_not_found r other = refusal 404 r
  cancel_switch order_ownership_violation r other = refusal 403 r
  cancel_switch access_denied r other = refusal 403 r
  cancel_switch invalid_state_transition r other = refusal 409 r
  cancel_switch _ r other = other

module _ {D F : Type 0} (env : Env D) (floats : Floats D F) where
  abbrev reply_with : ℕ → OrderWithItems D → Outcome D (OrderResponse F)
  reply_with status r = success status (to_order_response floats r)

  -- `Handler.GetOrder`
  unfoldable pub get_order : ℕ → ℕ → String → Handled D (OrderResponse F)
  unfolding get_switch err_json app_err_code
  get_order id caller role =
      unless (require_role role buyers) 403
        (call (Service.get env id caller role) (switched get_switch) (reply_with 200))

  -- `Handler.CancelOrder`
  unfoldable pub cancel_order : ℕ → ℕ → String → Handled D (OrderResponse F)
  unfolding cancel_switch err_json app_err_code
  cancel_order id caller role =
      unless (require_role role buyers) 403
        (call (Service.cancel env id caller role) (switched cancel_switch) (reply_with 200))

  module _ (rate_limit_minutes : ℕ) where
    -- `Handler.CreateOrder`
    unfoldable pub create_order : ℕ → String → OrderCreate → Handled D (OrderResponse F)
    create_order caller role body = unless (require_role role buyers) 403 (
        unless (verdict (check_promo_code body.promo_code (check_items body.items []))) 400 (
          call (Service.create env rate_limit_minutes (create_input caller body))
            map_order_create_err (reply_with 201)))

    -- `Handler.UpdateOrder`
    unfoldable pub update_order : ℕ → ℕ → String → OrderUpdate → Handled D (OrderResponse F)
    unfolding update_switch err_json app_err_code
    update_order id caller role body = unless (require_role role buyers) 403 (
        unless (verdict (check_items body.items [])) 400 (
          call (Service.update env rate_limit_minutes (update_input id caller role body))
            (switched update_switch) (reply_with 200)))
