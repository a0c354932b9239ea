-- ===== src/Auth.antt =====
-- internal/service/auth.go: the methods of `AuthService`. It opens no transaction.
pub mod Access
pub mod Errors
pub mod Refresh
use Prim.Native.Char.{Char, code}
use soa_hw.Base.{
  ℕ, suc, ◌+◌, ◌/◌, String, str_eq, Bool, true, false, not, ◌&&◌, ◌||◌, ◌==◌, if◌then◌else◌, Option,
  none, some,
}
use soa_hw.Base.Texts.{contains}
use soa_hw.ApiErr.{user_already_exists, invalid_credentials, refresh_token_invalid}
use soa_hw.Store.Schema.{UserRole, role_text}
use soa_hw.Store.Env.{Env}
use soa_hw.Store.Session.{
  Error, Action, Result, Session, ok, err, failed, raise, raise_if, pure, attempt, or_no_rows, pool,
  time_now, ◌>>=◌, ◌>>◌,
}
use soa_hw.Store.Queries.{
  create_user, get_user_by_email, create_refresh_token, get_refresh_token, delete_refresh_token,
}
use soa_hw.Orders.Types.{app_error, second}

-- middleware.Claims
pub record Claims : Type 0 where
  pub subject : ℕ
  pub issued_at : ℕ
  pub expires_at : ℕ
  pub role : String

-- What other packages do: bcrypt, JWT, SHA-256 in hexadecimal, uuid.New and the texts of errors.
-- `none` is an error. `salt` and `new_token` are read at the number of a step.
pub record Primitives (D : Type 0) : Type 0 where
  pub generate_from_password : ℕ → String → Option String
  pub compare_hash_and_password : String → String → Bool
  pub numeric_date : ℕ → ℕ
  pub signed_string : String → Claims → Option String
  pub sha256_hex : String → String
  -- uuid.New().String() + "-" + uuid.New().String()
  pub new_token : ℕ → String
  pub error_text : Error D → String

-- `AuthService`; the times to live are in nanoseconds.
pub record Settings : Type 0 where
  pub jwt_secret : String
  pub access_ttl : ℕ
  pub refresh_ttl : ℕ

pub record TokenPair : Type 0 where
  pub access_token : String
  pub refresh_token : String
  pub expires_in : ℕ

abbrev pub default_role : String → String
default_role role = if str_eq role "" then "USER" else role

module _ {D : Type 0} where
  -- A number that no other step has.
  unfoldable pub next_step : Action D ℕ
  next_step s = (ok s.step, record s { step = suc s.step })

  unfoldable pub or_failed : {A : Type 0} → Option A → Action D A
  or_failed none = raise failed
  or_failed (some a) = pure a

module _ {D : Type 0} (prims : Primitives D) where
  open prims use {error_text}

  -- `isUniqueViolation`
  unfoldable pub is_unique_violation : Error D → Bool
  is_unique_violation e = contains "unique" (error_text e) || contains "duplicate" (error_text e)

  -- `if isUniqueViolation(err)`, answered with another error
  abbrev pub unique_as : {A : Type 0} → Error D → Result D A × Session D → Result D A × Session D
  unique_as other (ok a, s) = (ok a, s)
  unique_as other (err e, s) = (err (if is_unique_violation e then other else e), s)

  unfoldable pub or_unique : {A : Type 0} → Action D A → Error D → Action D A
  unfolding is_unique_violation
  or_unique m other s = unique_as other (m s)

module _ {D : Type 0} (env : Env D) (prims : Primitives D) (settings : Settings) where
  open prims use {
    generate_from_password, compare_hash_and_password, numeric_date, signed_string, sha256_hex,
    new_token,
  }
  open settings use {jwt_secret, access_ttl, refresh_ttl}

  abbrev pub claims : ℕ → ℕ → String → Claims
  claims user now role = record {
    subject = user;
    issued_at = numeric_date now;
    expires_at = numeric_date (now + access_ttl);
    role = role;
  }

  -- `issueTokens`
  unfoldable pub issue_tokens : ℕ → String → Action D TokenPair
  unfolding next_step or_failed
  issue_tokens user role = do
    now ← time_now env
    access ← or_failed (signed_string jwt_secret (claims user now role))
    draw ← next_step
    let token = new_token draw
    pool env (create_refresh_token user (sha256_hex token) (now + refresh_ttl))
    pure record { access_token = access; refresh_token = token; expires_in = access_ttl / second }

  -- `Register`
  unfoldable pub register : String → String → String → Action D TokenPair
  unfolding next_step or_failed
  register email password role = do
    salt ← next_step
    hash ← or_failed (generate_from_password salt password)
    user ←
        or_unique prims (pool env (create_user email hash (default_role role)))
          (app_error user_already_exists)
    issue_tokens user.id (role_text user.role)

  -- `Login`
  unfoldable pub login : String → String → Action D TokenPair
  login email password = do
    user ← or_no_rows (pool env (get_user_by_email email)) (app_error invalid_credentials)
    raise_if (not (compare_hash_and_password user.password_hash password))
        (app_error invalid_credentials)
    issue_tokens user.id (role_text user.role)

  -- `RefreshTokens`
  unfoldable pub refresh_tokens : String → Action D TokenPair
  refresh_tokens token = do
    row ←
        or_no_rows (pool env (get_refresh_token (sha256_hex token)))
          (app_error refresh_token_invalid)
    attempt (pool env (delete_refresh_token (sha256_hex token)))
    issue_tokens row.0.user_id (role_text row.1)
