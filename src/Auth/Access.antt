-- ===== src/Auth/Access.antt =====
-- Who `Register` and `Login` of `AuthService` give tokens.
pub mod Issued
pub mod Register
use soa_hw.Base.{
  Option-cases, ℕ, String, Bool, true, false, not, ◌≡◌, ◌∙◌, refl, ap, arith, Option, none, some,
  ◌∷◌, str_eq, eq_iff, if◌then◌else◌, Bool-cases, inl, inr, is_some,
}
use soa_hw.Base.Rows.{find_row, first_row}
use soa_hw.ApiErr.{invalid_credentials}
use soa_hw.Store.Schema.{Db, User, UserRole, parse_role, role_text}
use soa_hw.Store.Env.{Env}
use soa_hw.Store.Session.{
  Session, Result, ok, err, no_rows, pool, or_no_rows, raise_if, attempt, ◌>>=◌, ◌>>◌,
}
use soa_hw.Store.Session.Pool.{
  one_step, pool-ok, pool-err, or_no_rows-ok, or_no_rows-none, >>=-ok, >>=-err, >>-ok, >>-err,
}
use soa_hw.Store.Session.Laws.{Post, Post-bind, Post-seq, Post-pool, Post-map}
use soa_hw.Store.Queries.{get_user_by_email, create_user, has_email}
use soa_hw.Orders.Types.{app_error}
use soa_hw.Auth.{Primitives, Settings, TokenPair, issue_tokens, login}

module _ {D : Type 0} where
  email_found :
      (email : String) (u : User) (uuid now : ℕ) (db : Db D)
      → first_row (has_email email) db.users ≡ some u
      → get_user_by_email email uuid now db ≡ ok (u, db)
  unfolding get_user_by_email
  email_found email u uuid now db h = rw h

  email_missing :
      (email : String) (uuid now : ℕ) (db : Db D)
      → first_row (has_email email) db.users ≡ none
      → get_user_by_email email uuid now db ≡ err no_rows
  unfolding get_user_by_email
  email_missing email uuid now db h = rw h

module _ {D : Type 0} (env : Env D) (prims : Primitives D) (settings : Settings) where
  -- The user of the address, with the right password.
  pub login-issues :
      (email password : String) (u : User) (s : Session D)
      → env.fault s.step ≡ false
      → first_row (has_email email) s.db.users ≡ some u
      → prims.compare_hash_and_password u.password_hash password ≡ true
      → login env prims settings email password s
        ≡ issue_tokens env prims settings u.id (role_text u.role) (one_step env s)
  unfolding login raise_if
  login-issues email password u s good found right =
      >>=-ok _ s _ (or_no_rows-ok _ s _ (pool-ok env _ s good (email_found email u _ _ s.db found)))
      ∙ rw right (>>-ok _ (one_step env s) _ refl)

  -- When the read does not fail: Login with an email that no user has, and Login with a wrong
  -- password, both end in INVALID_CREDENTIALS after the one read, and write nothing.
  pub login-refused :
      (email password : String) (s : Session D)
      → env.fault s.step ≡ false
      → ((u : User)
          → first_row (has_email email) s.db.users ≡ some u
          → prims.compare_hash_and_password u.password_hash password ≡ false)
      → login env prims settings email password s
        ≡ (err (app_error invalid_credentials), one_step env s)
  unfolding login raise_if
  login-refused email password s good wrong =
      elim (Option-cases (first_row (has_email email) s.db.users)) [
        | inl missing ↦
            >>=-err _ s _
              (or_no_rows-none _ s _ (pool-err env _ s good (email_missing email _ _ s.db missing)))
        | inr found ↦
            >>=-ok _ s _ (
              or_no_rows-ok _ s _
                (pool-ok env _ s good (email_found email found.0 _ _ s.db found.1)))
            ∙ rw (wrong found.0 found.1) (>>-err _ (one_step env s) _ refl)
      ]
