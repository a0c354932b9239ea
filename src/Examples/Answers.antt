-- ===== src/Examples/Answers.antt =====
-- The order endpoints of internal/handler at concrete requests.
use soa_hw.Base.{ℕ, ◌≤◌, ◌≡◌, ◌≢◌, ◌↔◌, refl, arith, true, none, some, List, [], map}
use soa_hw.ApiErr.{FieldErr, fields, validation_error}
use soa_hw.Store.Session.Errors.{Raises}
use soa_hw.Orders.Service
use soa_hw.Orders.History.{cancels, perform}
use soa_hw.Orders.History.Raised.{codes_of, perform-Raises}
use soa_hw.Handler.Validation.{is_promo_code_pattern, verdict, min_int, max_int}
use soa_hw.Handler.Validation.Pattern.{IsCode, is_promo_code_pattern_iff}
use soa_hw.Handler.Response.{Outcome, serve}
use soa_hw.Handler.Orders.{
  get_order, cancel_order, update_order, create_order, check_items, check_promo_code, item_inputs,
  create_input, update_input,
}
use soa_hw.Handler.Orders.Requests.{
  AreItems, IsPromoCode, passed_on, asked_for, order_checks_iff, item_inputs-map,
  create_order-invalid,
}
use soa_hw.Handler.Response.Serving.{expected}
use soa_hw.Handler.Orders.Answers.{created_or_lost, shown, order_answers, create_order-answer}
use soa_hw.Examples.Data.{calm, whole, session, basket, new_basket, no_basket}

is_promo_code_pattern_iff_example :
    (is_promo_code_pattern "SAVE_20" ≡ true) ↔ ((n : ℕ) × IsCode n "SAVE_20" × (4 ≤ n) × (n ≤ 20))
is_promo_code_pattern_iff_example = is_promo_code_pattern_iff "SAVE_20"

order_checks_iff_example :
    (verdict {D = ℕ} (check_promo_code basket.promo_code (check_items basket.items [])) ≡ none)
    ↔ (AreItems basket.items × IsPromoCode basket.promo_code)
order_checks_iff_example = order_checks_iff basket

item_inputs-map_example : map passed_on (item_inputs basket.items) ≡ map asked_for basket.items
item_inputs-map_example = item_inputs-map basket.items ((omega arith, omega arith), tt)

create_order-invalid_example :
    (es : List FieldErr) × (es ≢ [])
    × (create_order calm whole 1 6 "USER" no_basket session ≡ (
      Outcome.refusal 400 (record { error_code = validation_error; details = some (fields es) }),
      session,
    ))
create_order-invalid_example =
    create_order-invalid calm whole "USER" refl 1 6 no_basket session (λ h. absurd (ground arith))

order_answers_example :
    (serve (get_order calm whole 40 5 "USER" session).0
      ≡ expected 200 (shown whole) (Service.get calm 40 5 "USER" session).0)
    × (serve (cancel_order calm whole 40 5 "USER" session).0
        ≡ expected 200 (shown whole) (Service.cancel calm 40 5 "USER" session).0)
    × (serve (update_order calm whole 1 40 5 "USER" new_basket session).0
        ≡ expected 200
            (shown whole)
            (Service.update calm 1 (update_input 40 5 "USER" new_basket) session).0)
unfolding verdict check_items max_int min_int
order_answers_example = order_answers calm whole "USER" refl 1 40 5 new_basket session refl

create_order-answer_example :
    serve (create_order calm whole 1 6 "USER" basket session).0
    ≡ created_or_lost 201 (shown whole) (Service.create calm 1 (create_input 6 basket) session).0
unfolding verdict check_items check_promo_code max_int min_int
create_order-answer_example = create_order-answer calm whole "USER" refl 1 6 basket session refl

perform-Raises_example :
    Raises (codes_of (cancels 41 5 "USER")) (perform calm 1 (cancels 41 5 "USER") session)
perform-Raises_example = perform-Raises calm 1 (cancels 41 5 "USER") session
