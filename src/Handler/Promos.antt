-- ===== src/Handler/Promos.antt =====
-- internal/handler/promo.go
pub mod Answers
use soa_hw.Base.{ℕ, String, Bool, true, false, Option, none, some, if◌then◌else◌}
use soa_hw.Base.Int.{ℤ, to_int32}
use soa_hw.ApiErr.{Code, promo_code_duplicate, promo_code_invalid, validation_error}
use soa_hw.Store.Schema.{PromoCode, DiscountType}
use soa_hw.Store.Env.{Env, Floats}
use soa_hw.Store.Session.{Error}
use soa_hw.Auth.{Primitives}
use soa_hw.Promos as Service
use soa_hw.Promos.{CreatePromoInput}
use soa_hw.Handler.Response.{
  ErrorResponse, Outcome, success, refusal, failure, Handled, require_role, unless, call, switched,
}
use soa_hw.Handler.Products.{sellers}

-- api.PromoCodeCreate
pub record PromoBody (F : Type 0) : Type 0 where
  pub code : String
  pub discount_type : String
  pub discount_value : F
  pub min_order_amount : Option F
  pub max_uses : ℤ
  pub valid_from : ℕ
  pub valid_until : ℕ

-- api.PromoCodeResponse
pub record PromoResponse (F : Type 0) : Type 0 where
  pub id : ℕ
  pub code : String
  pub discount_type : DiscountType
  pub discount_value : F
  pub max_uses : ℕ
  pub current_uses : ℕ
  pub valid_from : ℕ
  pub valid_until : ℕ
  pub active : Bool
  pub min_order_amount : Option F

-- `MaxUses: int32(req.Body.MaxUses)`, with the times that were parsed
abbrev pub promo_input : {F : Type 0} → PromoBody F → ℕ → ℕ → CreatePromoInput F
promo_input body from until = record {
  code = body.code;
  discount_type = body.discount_type;
  discount_value = body.discount_value;
  min_order_amount = body.min_order_amount;
  max_uses = to_int32 body.max_uses;
  valid_from = from;
  valid_until = until;
}

module _ {D F : Type 0} (floats : Floats D F) where
  unfoldable pub to_promo_response : PromoCode D → PromoResponse F
  to_promo_response p = record {
    id = p.id;
    code = p.code;
    discount_type = p.discount_type;
    discount_value = floats.inexact_float64 p.discount_value;
    max_uses = p.max_uses;
    current_uses = p.current_uses;
    valid_from = p.valid_from;
    valid_until = p.valid_until;
    active = p.active;
    min_order_amount =
        if floats.is_zero p.min_order_amount
        then none
        else some (floats.inexact_float64 p.min_order_amount);
  }

module _ {D A : Type 0} where
  -- `errResp.ErrorCode = apierr.ErrPromoCodeInvalid`
  create_switch : Code → ErrorResponse D → Outcome D A → Outcome D A
  create_switch promo_code_duplicate r other =
      refusal 409 (record r { error_code = promo_code_invalid })
  create_switch _ r other = other

  abbrev bad_time : Outcome D A
  bad_time = refusal 400 (record { error_code = validation_error; details = none })

  -- `t, err := time.Parse(time.RFC3339, ….Format(time.RFC3339))`, answered with 400
  abbrev pub parsed : Option ℕ → (ℕ → Handled D A) → Handled D A
  parsed none next s = (bad_time, s)
  parsed (some t) next s = next t s

-- `reparse` is time.Parse of Format, both for time.RFC3339; `none` is an error.
module _ {D F : Type 0} (env : Env D) (prims : Primitives D) (floats : Floats D F)
    (reparse : ℕ → Option ℕ) where
  -- `Handler.CreatePromoCode`
  unfoldable pub create_promo_code : String → PromoBody F → Handled D (PromoResponse F)
  unfolding create_switch
  create_promo_code role body = unless (require_role role sellers) 403 (
      parsed (reparse body.valid_from) λ from. parsed (reparse body.valid_until) λ until.
        call (Service.create env prims floats (promo_input body from until))
          (switched create_switch) (λ p. success 201 (to_promo_response floats p)))
