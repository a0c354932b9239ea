-- ===== src/Handler/Promos/Answers.antt =====
-- How the handler of internal/handler/promo.go answers.
use soa_hw.Base.{ℕ, String, Bool, true, false, ◌≡◌, refl, ap, arith, Option, some, none}
use soa_hw.ApiErr.{Code, promo_code_duplicate, promo_code_invalid, internal_error}
use soa_hw.Store.Schema.{PromoCode}
use soa_hw.Store.Env.{Env, Floats, Decimals}
use soa_hw.Store.Session.{Session, Result, ok, err, app, no_rows, tx_aborted, failed, constraint}
use soa_hw.Store.Session.Errors.{IsPlain, Raises, Raises-pool, made}
use soa_hw.Store.Queries.{PromoParams}
use soa_hw.Store.Queries as Queries
use soa_hw.Auth.{Primitives, or_unique}
use soa_hw.Auth.Errors.{unique_as-Raises}
use soa_hw.Promos as Service
use soa_hw.Promos.{CreatePromoInput}
use soa_hw.Handler.Response.{
  ErrorResponse, Outcome, success, refusal, serve, call, unless, require_role, answered, switched,
  contains, app_err_code, Reply, sent, sent_error,
}
use soa_hw.Handler.Products.{sellers}
use soa_hw.Handler.Promos.{
  PromoBody, PromoResponse, promo_input, to_promo_response, create_switch, create_promo_code,
}

abbrev pub promo_code : Code → Bool
promo_code promo_code_duplicate = true
promo_code _ = false

create_promo_code-IsPlain :
    {D : Type 0} (dec : Decimals D) (params : PromoParams D)
    → IsPlain (Queries.create_promo_code dec params)
unfolding Queries.create_promo_code
create_promo_code-IsPlain dec params uuid now db e h = ground arith

create_switch_lem :
    {D A : Type 0} (c : Code) (r : ErrorResponse D) (o : Outcome D A)
    → promo_code c ≡ true
    → create_switch c r o ≡ refusal 409 (record r { error_code = promo_code_invalid })
unfolding create_switch
create_switch_lem c r o h = ground arith

module _ {D F : Type 0} (floats : Floats D F) where
  -- The answer that a result of `Create` calls for: its own code is never shown.
  abbrev pub expected_promo : Result D (PromoCode D) → Reply D (PromoResponse F)
  expected_promo (ok p) = sent 201 (to_promo_response floats p)
  expected_promo (err (app a)) =
      sent_error 409 (record { error_code = promo_code_invalid; details = a.details })
  expected_promo (err _) = sent_error 500 (record { error_code = internal_error; details = none })

  answered_promo :
      (r : Result D (PromoCode D) × Session D)
      → Raises promo_code r
      → serve
          (answered (switched create_switch) (λ p. success 201 (to_promo_response floats p)) r).0
        ≡ expected_promo r.0
  unfolding Raises serve create_switch app_err_code
  answered_promo (ok p, s) h = refl
  answered_promo (err (app a), s) h = ap serve (create_switch_lem a.error_code _ _ h.0)
  answered_promo (err no_rows, s) h = refl
  answered_promo (err tx_aborted, s) h = refl
  answered_promo (err failed, s) h = refl
  answered_promo (err (constraint c), s) h = refl

module _ {D F : Type 0} (env : Env D) (prims : Primitives D) (floats : Floats D F) where
  create-Raises :
      (input : CreatePromoInput F) (s : Session D)
      → Raises promo_code (Service.create env prims floats input s)
  unfolding Service.create or_unique
  create-Raises input s =
      unique_as-Raises promo_code prims _ _
        (Raises-pool promo_code env _ s (create_promo_code-IsPlain env.decimal _))
        (made D promo_code promo_code_duplicate refl)

  -- For a caller with the role SELLER or ADMIN and two times that can be parsed again:
  -- CreatePromoCode calls the service with the fields of the body, and answers 201 with the promo
  -- code, 409 with PROMO_CODE_INVALID for an application error, and 500 with INTERNAL_ERROR for
  -- any other error.
  pub create_promo_code-answer :
      (reparse : ℕ → Option ℕ) (role : String) (body : PromoBody F) (from until : ℕ) (s : Session D)
      → contains sellers role ≡ true
      → reparse body.valid_from ≡ some from
      → reparse body.valid_until ≡ some until
      → serve (create_promo_code env prims floats reparse role body s).0
        ≡ expected_promo floats (Service.create env prims floats (promo_input body from until) s).0
  unfolding create_promo_code require_role unless call
  create_promo_code-answer reparse role body from until s seller f u =
      rw (seller, f, u) (answered_promo floats _ (create-Raises (promo_input body from until) s))
