-- ===== src/Middleware/Auth.antt =====
-- internal/middleware/auth.go: who the caller of a request is.
pub mod Tokens
use soa_hw.Base.{ℕ, String, str_eq, Bool, true, false, not, ◌||◌, if◌then◌else◌, Option, none, some}
use soa_hw.Base.Texts.{has_prefix, trim_prefix}
use soa_hw.ApiErr.{Code, token_invalid, token_expired}

-- The fields of `Claims` that the middleware reads.
pub record ReadClaims : Type 0 where
  pub subject : String
  pub role : String

-- What jwt.ParseWithClaims returns: a token with its claims, or an error and whether it is
-- jwt.ErrTokenExpired.
pub data Parsed : Type 0 where
  parsed : Bool → ReadClaims → Parsed
  unparsed : Bool → Parsed

-- golang-jwt and google/uuid. The key function is given whether the token's method is HMAC, and
-- returns the key or an error; the number is the time of the call.
pub record Jwt : Type 0 where
  pub parse_with_claims : (Bool → Option String) → ℕ → String → Parsed
  pub uuid_string : ℕ → String
  pub uuid_parse : String → Option ℕ

-- What the middleware puts into the request's context.
pub record Identity : Type 0 where
  pub user_id : ℕ
  pub role : String

-- `userFromCtx` where nothing was put there: uuid.Nil and ""
abbrev pub nobody : Identity
nobody = record { user_id = 0; role = "" }

-- The code that `writeAuthError` answers with, or the caller.
pub data Verdict : Type 0 where
  rejected : Code → Verdict
  accepted : Identity → Verdict

-- The key function
abbrev pub key_of : String → Bool → Option String
key_of secret true = some secret
key_of secret false = none

module _ (jwt : Jwt) where
  open jwt use {parse_with_claims, uuid_parse}

  with_subject : String → Option ℕ → Verdict
  with_subject role none = rejected token_invalid
  with_subject role (some id) = accepted (record { user_id = id; role = role })

  -- `if err != nil || !token.Valid`, and what comes after it
  with_token : Parsed → Verdict
  unfolding with_subject
  with_token (unparsed expired) = rejected (if expired then token_expired else token_invalid)
  with_token (parsed false claims) = rejected token_invalid
  with_token (parsed true claims) = with_subject claims.role (uuid_parse claims.subject)

  -- `Auth`, up to the call of the next handler, for the header Authorization
  unfoldable pub authenticate : String → ℕ → String → Verdict
  unfolding with_token
  authenticate secret now header =
      if str_eq header "" || not (has_prefix "Bearer " header)
      then rejected token_invalid
      else with_token (parse_with_claims (key_of secret) now (trim_prefix "Bearer " header))
