-- ===== src/Auth/Errors.antt =====
-- The application errors of `AuthService` in internal/service/auth.go.
use soa_hw.Base.{
  ℕ, String, Bool, true, false, Option, some, none, refl, arith, Bool-cases, inl, inr,
}
use soa_hw.ApiErr.{Code, user_already_exists, invalid_credentials, refresh_token_invalid}
use soa_hw.Store.Env.{Env}
use soa_hw.Store.Session.{Error, Result, ok, err, Session, raise, pure}
use soa_hw.Store.Session.Errors.{
  IsPlain, IsAmong, Raises, Raises-bind, Raises-seq, Raises-or_no_rows, Raises-raise_if,
  Raises-pool, Raises-pure, Raises-attempt, Raises-time_now, made,
}
use soa_hw.Store.Queries.{create_user, get_user_by_email, create_refresh_token, get_refresh_token}
use soa_hw.Auth.{
  Primitives, Settings, next_step, or_failed, or_unique, is_unique_violation, unique_as,
  issue_tokens, register, login, refresh_tokens,
}

abbrev pub register_code : Code → Bool
register_code user_already_exists = true
register_code _ = false

abbrev pub login_code : Code → Bool
login_code invalid_credentials = true
login_code _ = false

abbrev pub refresh_code : Code → Bool
refresh_code refresh_token_invalid = true
refresh_code _ = false

module _ {D : Type 0} where
  create_user-IsPlain : (email hash role : String) → IsPlain {D = D} (create_user email hash role)
  unfolding create_user
  create_user-IsPlain email hash role uuid now db e h = ground arith

  get_user_by_email-IsPlain : (email : String) → IsPlain {D = D} (get_user_by_email email)
  unfolding get_user_by_email
  get_user_by_email-IsPlain email uuid now db e h = ground arith

  create_refresh_token-IsPlain :
      (user : ℕ) (hash : String) (expires : ℕ)
      → IsPlain {D = D} (create_refresh_token user hash expires)
  unfolding create_refresh_token
  create_refresh_token-IsPlain user hash expires uuid now db e h = ground arith

  get_refresh_token-IsPlain : (hash : String) → IsPlain {D = D} (get_refresh_token hash)
  unfolding get_refresh_token
  get_refresh_token-IsPlain hash uuid now db e h = ground arith

module _ {D : Type 0} (codes : Code → Bool) where
  next_step-Raises : (s : Session D) → Raises codes (next_step s)
  unfolding next_step Raises
  next_step-Raises s = tt

  or_failed-Raises : {A : Type 0} (o : Option A) (s : Session D) → Raises codes (or_failed o s)
  unfolding or_failed raise pure Raises
  or_failed-Raises none s = tt
  or_failed-Raises (some a) s = tt

  pub unique_as-Raises :
      (prims : Primitives D) {A : Type 0} (other : Error D) (r : Result D A × Session D)
      → Raises codes r
      → IsAmong codes other
      → Raises codes (unique_as prims other r)
  unfolding Raises
  unique_as-Raises prims other (ok a, s) h o = tt
  unique_as-Raises prims other (err e, s) h o = elim (Bool-cases (is_unique_violation prims e)) [
    | inl known ↦ rw known o
    | inr unknown ↦ rw unknown h
  ]

  module _ (env : Env D) (prims : Primitives D) (settings : Settings) where
    issue_tokens-Raises :
        (user : ℕ) (role : String) (s : Session D)
        → Raises codes (issue_tokens env prims settings user role s)
    unfolding issue_tokens
    issue_tokens-Raises user role s =
        Raises-bind codes _ _ s (Raises-time_now codes env s) λ now s1.
          Raises-bind codes _ _ s1 (or_failed-Raises _ s1) λ access s2.
            Raises-bind codes _ _ s2 (next_step-Raises s2) λ k s3.
              Raises-seq codes _ _ s3
                (Raises-pool codes env _ s3 (create_refresh_token-IsPlain user _ _))
                λ s4. Raises-pure codes _ s4

module _ {D : Type 0} (env : Env D) (prims : Primitives D) (settings : Settings) where
  pub register-Raises :
      (email password role : String) (s : Session D)
      → Raises register_code (register env prims settings email password role s)
  unfolding register or_unique
  register-Raises email password role s =
      Raises-bind register_code _ _ s (next_step-Raises register_code s) λ salt s1.
        Raises-bind register_code _ _ s1 (or_failed-Raises register_code _ s1) λ hash s2.
          Raises-bind register_code _ _ s2
            (unique_as-Raises register_code prims _ _
              (Raises-pool register_code env _ s2 (create_user-IsPlain email hash _))
              (made D register_code user_already_exists refl))
            λ u s3. issue_tokens-Raises register_code env prims settings _ _ s3

  pub login-Raises :
      (email password : String) (s : Session D)
      → Raises login_code (login env prims settings email password s)
  unfolding login
  login-Raises email password s =
      Raises-bind login_code _ _ s
        (Raises-or_no_rows login_code _ _ s
          (Raises-pool login_code env _ s (get_user_by_email-IsPlain email))
          (made D login_code invalid_credentials refl))
        λ u s1.
          Raises-seq login_code _ _ s1
            (Raises-raise_if login_code _ _ s1 (made D login_code invalid_credentials refl))
            λ s2. issue_tokens-Raises login_code env prims settings _ _ s2

  pub refresh_tokens-Raises :
      (token : String) (s : Session D)
      → Raises refresh_code (refresh_tokens env prims settings token s)
  unfolding refresh_tokens
  refresh_tokens-Raises token s =
      Raises-bind refresh_code _ _ s
        (Raises-or_no_rows refresh_code _ _ s
          (Raises-pool refresh_code env _ s (get_refresh_token-IsPlain _))
          (made D refresh_code refresh_token_invalid refl))
        λ row s1.
          Raises-seq refresh_code _ _ s1 (Raises-attempt refresh_code _ s1)
            λ s2. issue_tokens-Raises refresh_code env prims settings _ _ s2
