-- ===== src/Handler/Products/Answers.antt =====
-- How the handlers of internal/handler/products.go answer.
use soa_hw.Base.{ℕ, String, true, ◌≡◌, refl, arith, none}
use soa_hw.ApiErr.{Code, http_status_code}
use soa_hw.Store.Env.{Env, Floats}
use soa_hw.Store.Session.{Session}
use soa_hw.Products as Service
use soa_hw.Products.Errors.{
  product_codes, missing_code, get_by_id-Raises, create-Raises, update-Raises, delete-Raises,
}
use soa_hw.Handler.Validation.{verdict}
use soa_hw.Handler.Response.{ErrorResponse, Outcome, serve, call, unless, require_role, contains}
use soa_hw.Handler.Response.Serving.{expected, switch_answer, call_answer}
use soa_hw.Handler.Products.{
  ProductBody, sellers, check_product, to_product_response, create_input, update_input, get_switch,
  change_switch, create_product, get_product, update_product, delete_product,
}

module _ {D A : Type 0} (c : Code) (r : ErrorResponse D) (o : Outcome D A) where
  get_switch_lem : missing_code c ≡ true → get_switch c r o ≡ Outcome.refusal (http_status_code c) r
  unfolding get_switch http_status_code
  get_switch_lem h = ground arith

  change_switch_lem :
      product_codes c ≡ true → change_switch c r o ≡ Outcome.refusal (http_status_code c) r
  unfolding change_switch http_status_code
  change_switch_lem h = ground arith

module _ {D F : Type 0} (env : Env D) (floats : Floats D F) where
  get_product-answer :
      (id : ℕ) (s : Session D)
      → serve (get_product env floats id s).0
        ≡ expected 200 (to_product_response floats) (Service.get_by_id env id s).0
  unfolding get_product call
  get_product-answer id s =
      call_answer missing_code 200 (to_product_response floats) _ _ (get_by_id-Raises env id s)
        (switch_answer missing_code get_switch get_switch_lem (λ r o. refl))

  module _ (role : String) (allowed : contains sellers role ≡ true) where
    delete_product-answer :
        (id caller : ℕ) (s : Session D)
        → serve (delete_product env floats id caller role s).0
          ≡ expected 200 (to_product_response floats) (Service.delete env id caller role s).0
    unfolding delete_product unless require_role call
    delete_product-answer id caller s = rw allowed (
        call_answer product_codes 200 (to_product_response floats) _ _
          (delete-Raises env id caller role s)
          (switch_answer product_codes change_switch change_switch_lem (λ r o. refl)))

    update_product-answer :
        (id caller : ℕ) (body : ProductBody F) (status : String) (s : Session D)
        → verdict {D = D} (check_product floats body) ≡ none
        → serve (update_product env floats id caller role body status s).0
          ≡ expected 200
              (to_product_response floats)
              (Service.update env floats id (update_input body status) caller role s).0
    unfolding update_product unless require_role call
    update_product-answer id caller body status s valid =
        rw (allowed, valid)
          (call_answer product_codes 200 (to_product_response floats) _ _
            (update-Raises env floats id caller role (update_input body status) s)
            (switch_answer product_codes change_switch change_switch_lem (λ r o. refl)))

    create_product-answer :
        (caller : ℕ) (body : ProductBody F) (s : Session D)
        → verdict {D = D} (check_product floats body) ≡ none
        → serve (create_product env floats caller role body s).0
          ≡ expected 201
              (to_product_response floats)
              (Service.create env floats (create_input caller body) s).0
    unfolding create_product unless require_role call serve
    create_product-answer caller body s valid =
        rw (allowed, valid)
          (call_answer _ 201 (to_product_response floats) _ _
            (create-Raises env floats (create_input caller body) s) (λ e h. refl))

    -- For a caller with the role SELLER or ADMIN and a body that passes the checks: CreateProduct
    -- calls the service with the caller as seller and answers 201 with the product, GetProduct,
    -- UpdateProduct and DeleteProduct answer 200 with it, and each answers an error of the service
    -- with the status that belongs to it and its JSON.
    pub product_answers :
        (id caller : ℕ) (body : ProductBody F) (status : String) (s : Session D)
        → verdict {D = D} (check_product floats body) ≡ none
        → (serve (get_product env floats id s).0
            ≡ expected 200 (to_product_response floats) (Service.get_by_id env id s).0)
          × (serve (create_product env floats caller role body s).0
              ≡ expected 201
                  (to_product_response floats)
                  (Service.create env floats (create_input caller body) s).0)
          × (serve (update_product env floats id caller role body status s).0
              ≡ expected 200
                  (to_product_response floats)
                  (Service.update env floats id (update_input body status) caller role s).0)
          × (serve (delete_product env floats id caller role s).0
              ≡ expected 200 (to_product_response floats) (Service.delete env id caller role s).0)
    product_answers id caller body status s valid = (
      get_product-answer id s,
      create_product-answer caller body s valid,
      update_product-answer id caller body status s valid,
      delete_product-answer id caller s,
    )
