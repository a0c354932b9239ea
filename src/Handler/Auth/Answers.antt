-- ===== src/Handler/Auth/Answers.antt =====
-- How the handlers of internal/handler/auth.go answer.
use soa_hw.Base.{String, true, ◌≡◌, refl, arith, Option}
use soa_hw.ApiErr.{Code, http_status_code}
use soa_hw.Store.Env.{Env}
use soa_hw.Store.Session.{Session}
use soa_hw.Auth as Service
use soa_hw.Auth.{Primitives, Settings}
use soa_hw.Auth.Errors.{
  register_code, login_code, refresh_code, register-Raises, login-Raises, refresh_tokens-Raises,
}
use soa_hw.Handler.Response.{ErrorResponse, Outcome, serve, call}
use soa_hw.Handler.Response.Serving.{expected, switch_answer, call_answer}
use soa_hw.Handler.Auth.{
  to_auth_response, role_or_user, register_user, login_user, refresh_token, register_switch,
  login_switch, refresh_switch,
}

module _ {D A : Type 0} (c : Code) (r : ErrorResponse D) (o : Outcome D A) where
  register_switch_lem :
      register_code c ≡ true → register_switch c r o ≡ Outcome.refusal (http_status_code c) r
  unfolding register_switch http_status_code
  register_switch_lem h = ground arith

  login_switch_lem :
      login_code c ≡ true → login_switch c r o ≡ Outcome.refusal (http_status_code c) r
  unfolding login_switch http_status_code
  login_switch_lem h = ground arith

  refresh_switch_lem :
      refresh_code c ≡ true → refresh_switch c r o ≡ Outcome.refusal (http_status_code c) r
  unfolding refresh_switch http_status_code
  refresh_switch_lem h = ground arith

module _ {D : Type 0} (env : Env D) (prims : Primitives D) (settings : Settings) where
  register_user-answer :
      (email password : String) (role : Option String) (s : Session D)
      → serve (register_user env prims settings email password role s).0
        ≡ expected 201 to_auth_response
            (Service.register env prims settings email password (role_or_user role) s).0
  unfolding register_user call
  register_user-answer email password role s =
      call_answer register_code 201 to_auth_response _ _
        (register-Raises env prims settings email password (role_or_user role) s)
        (switch_answer register_code register_switch register_switch_lem (λ r o. refl))

  login_user-answer :
      (email password : String) (s : Session D)
      → serve (login_user env prims settings email password s).0
        ≡ expected 200 to_auth_response (Service.login env prims settings email password s).0
  unfolding login_user call
  login_user-answer email password s =
      call_answer login_code 200 to_auth_response _ _
        (login-Raises env prims settings email password s)
        (switch_answer login_code login_switch login_switch_lem (λ r o. refl))

  refresh_token-answer :
      (token : String) (s : Session D)
      → serve (refresh_token env prims settings token s).0
        ≡ expected 200 to_auth_response (Service.refresh_tokens env prims settings token s).0
  unfolding refresh_token call
  refresh_token-answer token s =
      call_answer refresh_code 200 to_auth_response _ _
        (refresh_tokens-Raises env prims settings token s)
        (switch_answer refresh_code refresh_switch refresh_switch_lem (λ r o. refl))

  -- RegisterUser, with the role of the body or USER if there is none, answers 201, and LoginUser
  -- and RefreshToken answer 200, with the tokens that the service returned, or the status that
  -- belongs to the error that it returned, and the JSON of that error.
  pub account_answers :
      (email password : String) (role : Option String) (token : String) (s : Session D)
      → (serve (register_user env prims settings email password role s).0
          ≡ expected 201 to_auth_response
              (Service.register env prims settings email password (role_or_user role) s).0)
        × (serve (login_user env prims settings email password s).0
            ≡ expected 200 to_auth_response (Service.login env prims settings email password s).0)
        × (serve (refresh_token env prims settings token s).0
            ≡ expected 200 to_auth_response (Service.refresh_tokens env prims settings token s).0)
  account_answers email password role token s = (
    register_user-answer email password role s,
    login_user-answer email password s,
    refresh_token-answer token s,
  )
