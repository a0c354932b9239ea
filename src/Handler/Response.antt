-- ===== src/Handler/Response.antt =====
-- Answers: internal/handler/handler.go and errors.go. Every response type of the generated package
-- `api` stands for one status; message texts are left out.
pub mod Serving
use soa_hw.Base.{
  ℕ, String, str_eq, Bool, false, ◌||◌, if◌then◌else◌, List, [], ◌∷◌, Option, none, some,
}
use soa_hw.ApiErr.{Code, Details, access_denied, internal_error, empty}
use soa_hw.Store.Schema.{OrderItem, OrderStatus}
use soa_hw.Store.Env.{Floats}
use soa_hw.Store.Session.{Error, app, Result, ok, err, Session, Action}
use soa_hw.Orders.Types.{app_error, OrderWithItems}

-- api.ErrorResponse
pub record ErrorResponse (D : Type 0) : Type 0 where
  pub error_code : Code
  pub details : Option (Details D)

-- What a handler returns: a response with its status and payload, a response made from an error by
-- errJSON, `nil, err`, or `nil, nil`.
pub data Outcome (D A : Type 0) : Type 0 where
  success : ℕ → A → Outcome D A
  refusal : ℕ → ErrorResponse D → Outcome D A
  failure : Error D → Outcome D A
  nothing : Outcome D A

-- What is written to the client, if anything.
pub data Reply (D A : Type 0) : Type 0 where
  sent : ℕ → A → Reply D A
  sent_error : ℕ → ErrorResponse D → Reply D A
  unsent : Reply D A

abbrev pub Handled : Type 0 → Type 0 → Type 0
Handled D A = Session D → Outcome D A × Session D

-- slices.Contains
abbrev pub contains : List String → String → Bool
contains [] r = false
contains (a ∷ rest) r = str_eq a r || contains rest r

pub record OrderItemResponse (F : Type 0) : Type 0 where
  pub id : ℕ
  pub product_id : ℕ
  pub quantity : ℕ
  pub price_at_order : F

pub record OrderResponse (F : Type 0) : Type 0 where
  pub id : ℕ
  pub user_id : ℕ
  pub status : OrderStatus
  pub total_amount : F
  pub discount_amount : F
  pub created_at : ℕ
  pub updated_at : ℕ
  pub promo_code_id : Option ℕ
  pub items : List (OrderItemResponse F)

module _ {D : Type 0} where
  unfoldable pub err_json : Error D → ErrorResponse D
  err_json (app a) = record { error_code = a.error_code; details = a.details }
  err_json _ = record { error_code = internal_error; details = none }

  unfoldable pub app_err_code : Error D → Code
  app_err_code (app a) = a.error_code
  app_err_code _ = empty

  -- The status of `ResponseErrorHandler`
  unfoldable pub error_status : Error D → ℕ
  error_status (app a) = a.http_status
  error_status _ = 500

  -- What becomes of an outcome; the generated server calls `ResponseErrorHandler` for an error.
  unfoldable pub serve : {A : Type 0} → Outcome D A → Reply D A
  unfolding error_status err_json
  serve (success n a) = sent n a
  serve (refusal n r) = sent_error n r
  serve (failure e) = sent_error (error_status e) (err_json e)
  serve nothing = unsent

  unfoldable pub require_role : String → List String → Option (Error D)
  require_role role allowed = if contains allowed role then none else some (app_error access_denied)

  -- `if err := …; err != nil { return XxxNNNJSONResponse(errJSON(err)), nil }`
  unfoldable pub unless : {A : Type 0} → Option (Error D) → ℕ → Handled D A → Handled D A
  unfolding err_json
  unless none n next s = next s
  unless (some e) n next s = (refusal n (err_json e), s)

  abbrev pub answered :
      {A B : Type 0}
      → (Error D → Outcome D B)
      → (A → Outcome D B)
      → Result D A × Session D
      → Outcome D B × Session D
  answered bad good (ok a, s) = (good a, s)
  answered bad good (err e, s) = (bad e, s)

  -- `result, err := h.….…(ctx, …)` and what is returned after it
  unfoldable pub call :
      {A B : Type 0} → Action D A → (Error D → Outcome D B) → (A → Outcome D B) → Handled D B
  call service bad good s = answered bad good (service s)

  -- `switch appErrCode(err)`, and `return nil, err` after it
  abbrev pub switched :
      {A : Type 0} → (Code → ErrorResponse D → Outcome D A → Outcome D A) → Error D → Outcome D A
  switched switch e = switch (app_err_code e) (err_json e) (failure e)

  module _ {F : Type 0} (floats : Floats D F) where
    open floats use {inexact_float64}

    to_item_responses : List (OrderItem D) → List (OrderItemResponse F)
    to_item_responses [] = []
    to_item_responses (i ∷ is) =
        record {
          id = i.id;
          product_id = i.product_id;
          quantity = i.quantity;
          price_at_order = inexact_float64 i.price_at_order;
        }
        ∷ to_item_responses is

    -- `toOrderResponse`
    unfoldable pub to_order_response : OrderWithItems D → OrderResponse F
    unfolding to_item_responses
    to_order_response r = record {
      id = r.order.id;
      user_id = r.order.user_id;
      status = r.order.status;
      total_amount = inexact_float64 r.order.total_amount;
      discount_amount = inexact_float64 r.order.discount_amount;
      created_at = r.order.created_at;
      updated_at = r.order.updated_at;
      promo_code_id = r.order.promo_code_id;
      items = to_item_responses r.items;
    }
