-- ===== src/Promos.antt =====
-- internal/service/promo.go: `PromoService`.
pub mod Codes
use soa_hw.Base.{ℕ, String, Option, none, some}
use soa_hw.Base.Int.{ℤ}
use soa_hw.ApiErr.{promo_code_duplicate}
use soa_hw.Store.Schema.{PromoCode}
use soa_hw.Store.Env.{Env, Floats}
use soa_hw.Store.Session.{Action, pool}
use soa_hw.Store.Queries.{PromoParams, create_promo_code}
use soa_hw.Orders.Types.{app_error}
use soa_hw.Auth.{Primitives, or_unique}

pub record CreatePromoInput (F : Type 0) : Type 0 where
  pub code : String
  pub discount_type : String
  pub discount_value : F
  pub min_order_amount : Option F
  pub max_uses : ℤ
  pub valid_from : ℕ
  pub valid_until : ℕ

module _ {D F : Type 0} (env : Env D) (prims : Primitives D) (floats : Floats D F) where
  abbrev pub min_amount : Option F → D
  min_amount none = env.decimal.zero
  min_amount (some x) = floats.new_from_float x

  abbrev pub params : CreatePromoInput F → PromoParams D
  params input = record {
    code = input.code;
    discount_type = input.discount_type;
    discount_value = floats.new_from_float input.discount_value;
    min_order_amount = min_amount input.min_order_amount;
    max_uses = input.max_uses;
    valid_from = input.valid_from;
    valid_until = input.valid_until;
  }

  -- `Create`
  unfoldable pub create : CreatePromoInput F → Action D (PromoCode D)
  create input =
      or_unique prims (pool env (create_promo_code env.decimal (params input)))
        (app_error promo_code_duplicate)
