-- ===== src/Examples/Catalog.antt =====
-- The product and auth endpoints of internal/handler at concrete requests.
use soa_hw.Base.{ℕ, ◌≡◌, ◌↔◌, refl, none}
use soa_hw.Auth as Service
use soa_hw.Products as Shelf
use soa_hw.Handler.Validation.{verdict, max_len, min_len, min_int, min_float}
use soa_hw.Handler.Response.{serve}
use soa_hw.Handler.Response.Serving.{expected}
use soa_hw.Handler.Auth.{to_auth_response, role_or_user, register_user, login_user, refresh_token}
use soa_hw.Handler.Auth.Answers.{account_answers}
use soa_hw.Handler.Products.{
  check_product, check_description, to_product_response, create_input, update_input, create_product,
  get_product, update_product, delete_product,
}
use soa_hw.Handler.Products.Requests.{IsProduct, IsProduct-checks_iff}
use soa_hw.Handler.Products.Answers.{product_answers}
use soa_hw.Examples.Data.{calm, whole, plain, settings, session, with_token, offer}

IsProduct-checks_iff_example :
    (verdict {D = ℕ} (check_product whole offer) ≡ none) ↔ IsProduct whole offer
IsProduct-checks_iff_example = IsProduct-checks_iff whole offer

product_answers_example :
    (serve (get_product calm whole 1 session).0
      ≡ expected 200 (to_product_response whole) (Shelf.get_by_id calm 1 session).0)
    × (serve (create_product calm whole 8 "SELLER" offer session).0
        ≡ expected 201
            (to_product_response whole)
            (Shelf.create calm whole (create_input 8 offer) session).0)
    × (serve (update_product calm whole 1 8 "SELLER" offer "ACTIVE" session).0
        ≡ expected 200
            (to_product_response whole)
            (Shelf.update calm whole 1 (update_input offer "ACTIVE") 8 "SELLER" session).0)
    × (serve (delete_product calm whole 1 8 "SELLER" session).0
        ≡ expected 200 (to_product_response whole) (Shelf.delete calm 1 8 "SELLER" session).0)
unfolding verdict check_product check_description max_len min_len min_int min_float
product_answers_example = product_answers calm whole "SELLER" refl 1 8 offer "ACTIVE" session refl

account_answers_example :
    (serve (register_user calm plain settings "buyer" "hash" none with_token).0
      ≡ expected 201 to_auth_response
          (Service.register calm plain settings "buyer" "hash" (role_or_user none) with_token).0)
    × (serve (login_user calm plain settings "buyer" "hash" with_token).0
        ≡ expected 200 to_auth_response
            (Service.login calm plain settings "buyer" "hash" with_token).0)
    × (serve (refresh_token calm plain settings "old" with_token).0
        ≡ expected 200 to_auth_response
            (Service.refresh_tokens calm plain settings "old" with_token).0)
account_answers_example = account_answers calm plain settings "buyer" "hash" none "old" with_token
