-- ===== src/Handler/Orders/Answers.antt =====
-- How the handlers of internal/handler/orders.go answer the errors of the service.
use soa_hw.Base.{ℕ, String, true, ◌≡◌, refl, arith, [], none}
use soa_hw.ApiErr.{Code, http_status_code}
use soa_hw.Store.Env.{Env, Floats}
use soa_hw.Store.Session.{app, no_rows, tx_aborted, failed, constraint, Result, ok, err, Session}
use soa_hw.Store.Session.Errors.{Raises}
use soa_hw.Orders.Types.{OrderWithItems}
use soa_hw.Orders.Errors.{
  get_codes, cancel_codes, update_codes, create_codes, get-Raises, cancel-Raises, update-Raises,
  create-Raises,
}
use soa_hw.Orders.Service
use soa_hw.Handler.Validation.{verdict}
use soa_hw.Handler.Response.{
  ErrorResponse, Outcome, Reply, sent, sent_error, unsent, serve, err_json, error_status,
  require_role, unless, call, answered, contains, OrderResponse, to_order_response,
}
use soa_hw.Handler.Orders.{
  OrderCreate, OrderUpdate, buyers, get_order, cancel_order, update_order, create_order, get_switch,
  cancel_switch, update_switch, create_switch, map_order_create_err, check_items, check_promo_code,
  create_input, update_input,
}
use soa_hw.Handler.Response.Serving.{expected, refused, switch_answer, call_answer}

module _ {D A : Type 0} where
  get_switch_lem :
      (c : Code) (r : ErrorResponse D) (o : Outcome D A)
      → get_codes c ≡ true
      → get_switch c r o ≡ Outcome.refusal (http_status_code c) r
  unfolding get_switch http_status_code
  get_switch_lem c r o h = ground arith

  cancel_switch_lem :
      (c : Code) (r : ErrorResponse D) (o : Outcome D A)
      → cancel_codes c ≡ true
      → cancel_switch c r o ≡ Outcome.refusal (http_status_code c) r
  unfolding cancel_switch http_status_code
  cancel_switch_lem c r o h = ground arith

  update_switch_lem :
      (c : Code) (r : ErrorResponse D) (o : Outcome D A)
      → update_codes c ≡ true
      → update_switch c r o ≡ Outcome.refusal (http_status_code c) r
  unfolding update_switch http_status_code
  update_switch_lem c r o h = ground arith

  create_switch_lem :
      (c : Code) (r : ErrorResponse D)
      → create_codes c ≡ true
      → create_switch {A = A} c r ≡ Outcome.refusal (http_status_code c) r
  unfolding create_switch http_status_code
  create_switch_lem c r h = ground arith

  -- The answer of `CreateOrder` to an error that is no application error.
  abbrev pub created_or_lost : {B : Type 0} → ℕ → (B → A) → Result D B → Reply D A
  created_or_lost n f (ok b) = sent n (f b)
  created_or_lost n f (err (app a)) = sent_error (error_status (app a)) (err_json (app a))
  created_or_lost n f (err _) = unsent

  create_answer :
      {B : Type 0} (n : ℕ) (f : B → A) (r : Result D B × Session D)
      → Raises create_codes r
      → serve (answered map_order_create_err (λ b. Outcome.success n (f b)) r).0
        ≡ created_or_lost n f r.0
  unfolding Raises serve map_order_create_err
  create_answer n f (ok b, s) h = refl
  create_answer n f (err (app a), s) h =
      refused create_codes a _ h (create_switch_lem a.error_code _)
  create_answer n f (err no_rows, s) h = refl
  create_answer n f (err tx_aborted, s) h = refl
  create_answer n f (err failed, s) h = refl
  create_answer n f (err (constraint c), s) h = refl

abbrev pub shown : {D F : Type 0} → Floats D F → OrderWithItems D → OrderResponse F
shown = to_order_response

module _ {D F : Type 0} (env : Env D) (floats : Floats D F) where
  module _ (role : String) (allowed : contains buyers role ≡ true) where
    get_order-answer :
        (id caller : ℕ) (s : Session D)
        → serve (get_order env floats id caller role s).0
          ≡ expected 200 (shown floats) (Service.get env id caller role s).0
    unfolding get_order unless require_role call
    get_order-answer id caller s = rw allowed (
        call_answer get_codes 200 (shown floats) _ _ (get-Raises env id caller role s)
          (switch_answer get_codes get_switch get_switch_lem (λ r o. refl)))

    cancel_order-answer :
        (id caller : ℕ) (s : Session D)
        → serve (cancel_order env floats id caller role s).0
          ≡ expected 200 (shown floats) (Service.cancel env id caller role s).0
    unfolding cancel_order unless require_role call
    cancel_order-answer id caller s = rw allowed (
        call_answer cancel_codes 200 (shown floats) _ _ (cancel-Raises env id caller role s)
          (switch_answer cancel_codes cancel_switch cancel_switch_lem (λ r o. refl)))

    update_order-answer :
        (limit id caller : ℕ) (body : OrderUpdate) (s : Session D)
        → verdict {D = D} (check_items body.items []) ≡ none
        → serve (update_order env floats limit id caller role body s).0
          ≡ expected 200
              (shown floats)
              (Service.update env limit (update_input id caller role body) s).0
    unfolding update_order unless require_role call
    update_order-answer limit id caller body s valid =
        rw (allowed, valid)
          (call_answer update_codes 200 (shown floats) _ _ (update-Raises env limit _ s)
            (switch_answer update_codes update_switch update_switch_lem (λ r o. refl)))

    -- For a caller with the role USER or ADMIN and a body that passes the checks: CreateOrder
    -- calls the service with the items of the body and the caller as owner, and answers 201 with
    -- the order, or the status and the JSON of the application error that the service returned;
    -- for an error of another kind it answers nothing.
    pub create_order-answer :
        (limit caller : ℕ) (body : OrderCreate) (s : Session D)
        → verdict {D = D} (check_promo_code body.promo_code (check_items body.items [])) ≡ none
        → serve (create_order env floats limit caller role body s).0
          ≡ created_or_lost 201
              (shown floats)
              (Service.create env limit (create_input caller body) s).0
    unfolding create_order unless require_role call
    create_order-answer limit caller body s valid =
        rw (allowed, valid) (create_answer 201 (shown floats) _ (create-Raises env limit _ s))

    -- For a caller with the role USER or ADMIN, and for UpdateOrder a body that passes the checks:
    -- GetOrder, CancelOrder and UpdateOrder answer 200 with the order that the service returned,
    -- or the status that belongs to the error that it returned, and the JSON of that error.
    pub order_answers :
        (limit id caller : ℕ) (body : OrderUpdate) (s : Session D)
        → verdict {D = D} (check_items body.items []) ≡ none
        → (serve (get_order env floats id caller role s).0
            ≡ expected 200 (shown floats) (Service.get env id caller role s).0)
          × (serve (cancel_order env floats id caller role s).0
              ≡ expected 200 (shown floats) (Service.cancel env id caller role s).0)
          × (serve (update_order env floats limit id caller role body s).0
              ≡ expected 200
                  (shown floats)
                  (Service.update env limit (update_input id caller role body) s).0)
    order_answers limit id caller body s valid = (
      get_order-answer id caller s,
      cancel_order-answer id caller s,
      update_order-answer limit id caller body s valid,
    )
