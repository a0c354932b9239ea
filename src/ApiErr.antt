-- ===== src/ApiErr.antt =====
-- The error codes and their HTTP statuses (internal/apierr/errors.go). Message texts are left out.
use soa_hw.Base.{ℕ, String, List, Option, none, some}
use soa_hw.Base.Int.{ℤ}

-- The constants of errors.go, the two literals that other files use, and "".
pub data Code : Type 0 where
  product_not_found product_inactive order_not_found order_limit_exceeded order_has_active : Code
  invalid_state_transition insufficient_stock promo_code_invalid promo_code_min_amount : Code
  order_ownership_violation validation_error token_expired token_invalid : Code
  refresh_token_invalid access_denied user_already_exists invalid_credentials : Code
  promo_code_duplicate internal_error empty : Code

-- An item of `stockErrors` in orders.go.
pub record StockError : Type 0 where
  pub product_id : ℕ
  pub requested : ℕ
  pub available : ℕ

-- The field that `validator` in validation.go is told: a name, or `items[%d].quantity`.
pub data Field : Type 0 where
  named : String → Field
  quantity_of : ℕ → Field

-- The messages of `validator`, before they are printed; `minimum` of a price is 0.01.
pub data Message : Type 0 where
  min_length max_length minimum maximum : ℕ → Message
  minimum_price promo_code_pattern : Message

-- `fieldErr`
pub record FieldErr : Type 0 where
  pub field : Field
  pub message : Message

-- The maps that `NewWithDetails` is given; `D` is the type of decimals.
pub data Details (D : Type 0) : Type 0 where
  items : List StockError → Details D
  min_order_amount : D → Details D
  retry_after_seconds : ℤ → Details D
  fields : List FieldErr → Details D

pub record AppError (D : Type 0) : Type 0 where
  pub error_code : Code
  pub http_status : ℕ
  pub details : Option (Details D)

unfoldable pub http_status_code : Code → ℕ
http_status_code validation_error = 400
http_status_code token_expired = 401
http_status_code token_invalid = 401
http_status_code refresh_token_invalid = 401
http_status_code invalid_credentials = 401
http_status_code access_denied = 403
http_status_code order_ownership_violation = 403
http_status_code product_not_found = 404
http_status_code order_not_found = 404
http_status_code product_inactive = 409
http_status_code order_has_active = 409
http_status_code invalid_state_transition = 409
http_status_code insufficient_stock = 409
http_status_code user_already_exists = 409
http_status_code promo_code_invalid = 422
http_status_code promo_code_min_amount = 422
http_status_code order_limit_exceeded = 429
http_status_code _ = 500

module _ {D : Type 0} where
  unfoldable pub new : Code → AppError D
  new code = record { error_code = code; http_status = http_status_code code; details = none }

  unfoldable pub new_with_details : Code → Details D → AppError D
  new_with_details code d = record {
    error_code = code;
    http_status = http_status_code code;
    details = some d;
  }
