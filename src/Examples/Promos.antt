-- ===== src/Examples/Promos.antt =====
-- `PromoService` in the small shop: its theorem at a concrete input.
use soa_hw.Base.{ℕ, ◌≡◌, refl, none, some}
use soa_hw.Base.Int.{pos}
use soa_hw.Store.Session.Laws.{Post}
use soa_hw.Promos.{CreatePromoInput, create}
use soa_hw.Promos.Codes.{IsNew, create-IsNew}
use soa_hw.Handler.Response.{serve}
use soa_hw.Handler.Promos.{PromoBody, promo_input, create_promo_code}
use soa_hw.Handler.Promos.Answers.{expected_promo, create_promo_code-answer}
use soa_hw.Examples.Data.{calm, plain, whole, shop, session}

abbrev spring : CreatePromoInput ℕ
spring = record {
  code = "SPRING";
  discount_type = "PERCENTAGE";
  discount_value = 1000;
  min_order_amount = none;
  max_uses = pos 3;
  valid_from = 0;
  valid_until = 9000;
}

create-IsNew_example : Post (IsNew "SPRING" shop) (create calm plain whole spring session)
create-IsNew_example = create-IsNew calm plain whole spring session

abbrev autumn : PromoBody ℕ
autumn = record {
  code = "SAVE20";
  discount_type = "PERCENTAGE";
  discount_value = 1000;
  min_order_amount = none;
  max_uses = pos 3;
  valid_from = 0;
  valid_until = 9000;
}

create_promo_code-answer_example :
    serve (create_promo_code calm plain whole (λ t. some t) "SELLER" autumn session).0
    ≡ expected_promo whole (create calm plain whole (promo_input autumn 0 9000) session).0
create_promo_code-answer_example =
    create_promo_code-answer calm plain whole (λ t. some t) "SELLER" autumn 0 9000 session refl refl
      refl
