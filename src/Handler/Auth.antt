-- ===== src/Handler/Auth.antt =====
-- internal/handler/auth.go
pub mod Answers
use soa_hw.Base.{ℕ, String, Option, none, some}
use soa_hw.ApiErr.{
  Code, user_already_exists, invalid_credentials, refresh_token_invalid, validation_error,
}
use soa_hw.Store.Env.{Env}
use soa_hw.Auth as Service
use soa_hw.Auth.{Primitives, Settings, TokenPair}
use soa_hw.Handler.Response.{ErrorResponse, Outcome, success, refusal, Handled, call, switched}

-- api.AuthResponse
pub record AuthResponse : Type 0 where
  pub access_token : String
  pub refresh_token : String
  pub token_type : String
  pub expires_in : ℕ

-- `toAuthResponse`
unfoldable pub to_auth_response : TokenPair → AuthResponse
to_auth_response pair = record {
  access_token = pair.access_token;
  refresh_token = pair.refresh_token;
  token_type = "Bearer";
  expires_in = pair.expires_in;
}

abbrev pub role_or_user : Option String → String
role_or_user none = "USER"
role_or_user (some role) = role

module _ {D A : Type 0} where
  register_switch : Code → ErrorResponse D → Outcome D A → Outcome D A
  register_switch user_already_exists r other = refusal 409 r
  register_switch validation_error r other = refusal 400 r
  register_switch _ r other = other

  login_switch : Code → ErrorResponse D → Outcome D A → Outcome D A
  login_switch invalid_credentials r other = refusal 401 r
  login_switch validation_error r other = refusal 400 r
  login_switch _ r other = other

  refresh_switch : Code → ErrorResponse D → Outcome D A → Outcome D A
  refresh_switch refresh_token_invalid r other = refusal 401 r
  refresh_switch _ r other = other

module _ {D : Type 0} (env : Env D) (prims : Primitives D) (settings : Settings) where
  abbrev reply_with : ℕ → TokenPair → Outcome D AuthResponse
  reply_with status pair = success status (to_auth_response pair)

  -- `Handler.RegisterUser`
  unfoldable pub register_user : String → String → Option String → Handled D AuthResponse
  unfolding register_switch
  register_user email password role =
      call (Service.register env prims settings email password (role_or_user role))
        (switched register_switch) (reply_with 201)

  -- `Handler.LoginUser`
  unfoldable pub login_user : String → String → Handled D AuthResponse
  unfolding login_switch
  login_user email password =
      call (Service.login env prims settings email password) (switched login_switch)
        (reply_with 200)

  -- `Handler.RefreshToken`
  unfoldable pub refresh_token : String → Handled D AuthResponse
  unfolding refresh_switch
  refresh_token token =
      call (Service.refresh_tokens env prims settings token) (switched refresh_switch)
        (reply_with 200)
