-- ===== src/Auth/Access/Register.antt =====
-- Accounts made by `Register` of `AuthService`.
use soa_hw.Base.{
  ℕ, String, true, false, not, ◌≤◌, ◌≡◌, ◌∙◌, refl, ap, arith, Option, none, some, ◌∷◌, str_eq,
  eq_iff, Bool-cases, inl, inr, is_some, ltb,
}
use Prim.Native.String.{count}
use soa_hw.Base.Texts.{contains}
use soa_hw.Base.Rows.{find_row, first_row}
use soa_hw.ApiErr.{user_already_exists}
use soa_hw.Store.Schema.{Db, User, UserRole, parse_role, role_text}
use soa_hw.Store.Env.{Env}
use soa_hw.Store.Session.{
  Error, Session, Action, Result, ok, err, constraint, unique_violation, pure,
}
use soa_hw.Store.Session.Pool.{one_step, pool-err, >>=-ok, >>=-err}
use soa_hw.Store.Session.Laws.{Post, Post-bind, Post-pool, Post-map}
use soa_hw.Store.Queries.{create_user, has_email}
use soa_hw.Store.Queries.Checks.{user_id, >>=-passed, require, varchar, enum_value}
use soa_hw.Orders.Types.{app_error}
use soa_hw.Auth.{
  Primitives, Settings, issue_tokens, login, register, default_role, next_step, or_failed,
  unique_as, or_unique, is_unique_violation,
}
use soa_hw.Auth.Access.{login-issues}
use soa_hw.Auth.Access.Issued.{issue_tokens-Issues, or_failed-Post, next_step-Post}

role_back : (r : String) (v : UserRole) → parse_role r ≡ some v → role_text v ≡ r
unfolding parse_role role_text
role_back r v h = ground (arith, eq_iff r "USER", eq_iff r "SELLER", eq_iff r "ADMIN")

module _ {D : Type 0} where
  stored_user :
      (email hash role : String) (uuid now : ℕ) (db db' : Db D) (u : User)
      → create_user email hash role uuid now db ≡ ok (u, db')
      → (u.password_hash ≡ hash)
        × (role_text u.role ≡ role)
        × (find_row user_id u.id db.users ≡ none)
        × (first_row (has_email email) db.users ≡ none)
        × (first_row (has_email email) db'.users ≡ some u)
  unfolding create_user first_row
  stored_user email hash role uuid now db db' u h =
      let (value, parsed, h0) = >>=-passed (enum_value (parse_role role)) _ h in
      let (_, short, h1) = >>=-passed (varchar 255 email) _ h0 in
      let (_, short_hash, h2) = >>=-passed (varchar 255 hash) _ h1 in
      let (_, fresh, h3) =
        >>=-passed (require (not (is_some (find_row user_id uuid db.users))) _) _ h2 in
      let (_, other, h4) =
        >>=-passed (require (not (is_some (first_row (has_email email) db.users))) _) _ h3 in
      let row : u ≡ record {
        id = uuid;
        email = email;
        password_hash = hash;
        role = value;
        created_at = now;
      } =
        cc (h4) in
      let users : db' ≡ record db { users = u ∷ db.users } = rw row (cc (h4)) in
      let tables : db'.users ≡ u ∷ db.users = ap (λ d. d.users) users in
      let same : str_eq email email ≡ true = ground (arith, eq_iff email email) in
      (
        ap (λ r. r.password_hash) row,
        ap (λ r. role_text r.role) row ∙ role_back role value (ground (arith, parsed)),
        rw row (ground (arith, fresh)),
        ground (arith, other),
        rw tables (rw row (rw same refl)),
      )

  -- A user with the address: the insert is refused.
  taken :
      (email hash role : String) (v : UserRole) (u : User) (uuid now : ℕ) (db : Db D)
      → parse_role role ≡ some v
      → count email ≤ 255
      → count hash ≤ 255
      → first_row (has_email email) db.users ≡ some u
      → create_user email hash role uuid now db ≡ err (constraint unique_violation)
  unfolding create_user
  taken email hash role v u uuid now db known short short_hash there =
      let a : ltb 255 (count email) ≡ false = ground arith in
      let b : ltb 255 (count hash) ≡ false = ground arith in
      elim (Bool-cases (is_some (find_row user_id uuid db.users))) [
        | inl same ↦ rw (known, a, b, same) refl
        | inr fresh ↦ rw (known, a, b, fresh, there) refl
      ]

module _ {D : Type 0} (prims : Primitives D) where
  Post-unique_as :
      {A : Type 0} (Q : A → Session D → Type 0) (e : Error D) (r : Result D A × Session D)
      → Post Q r
      → Post Q (unique_as prims e r)
  unfolding Post
  Post-unique_as Q e (ok a, s) h = h
  Post-unique_as Q e (err x, s) h = tt

  pub Post-or_unique :
      {A : Type 0} (Q : A → Session D → Type 0) (m : Action D A) (e : Error D) (s : Session D)
      → Post Q (m s)
      → Post Q (or_unique prims m e s)
  unfolding or_unique
  Post-or_unique Q m e s h = Post-unique_as Q e (m s) h

module _ {D : Type 0} (env : Env D) (prims : Primitives D) (settings : Settings) where
  -- In a database that does not fail, where a hash of a password matches that password: when
  -- Register succeeds, Login with the same email and password goes on to issue tokens for a user
  -- that was not there before and that has the role asked for, or USER if none was.
  pub register-login :
      (email password role : String) (s : Session D)
      → ((k : ℕ) → env.fault k ≡ false)
      → ((salt : ℕ) (hash : String)
          → prims.generate_from_password salt password ≡ some hash
          → prims.compare_hash_and_password hash password ≡ true)
      → Post
          (λ pair s'.
            (u : User) × (role_text u.role ≡ default_role role)
            × (find_row user_id u.id s.db.users ≡ none)
            × (login env prims settings email password s'
                ≡ issue_tokens env prims settings u.id (role_text u.role) (one_step env s')))
          (register env prims settings email password role s)
  unfolding register
  register-login email password role s good law =
      Post-bind (λ k s1. s1.db ≡ s.db) _ _ _ s (next_step-Post s)
        λ k s1 h1.
          Post-bind
            (λ hash s2. (prims.generate_from_password k password ≡ some hash) × (s2.db ≡ s1.db)) _ _
            _ s1 (or_failed-Post _ s1)
            λ hash s2 h2.
              Post-bind
                (λ u s3.
                  (u.password_hash ≡ hash)
                  × (role_text u.role ≡ default_role role)
                  × (find_row user_id u.id s2.db.users ≡ none)
                  × (first_row (has_email email) s2.db.users ≡ none)
                  × (first_row (has_email email) s3.db.users ≡ some u))
                _ _ _ s2
                (Post-or_unique prims _ _ _ s2 (
                  Post-pool env _ _ s2
                    λ s3 uuid now u e. stored_user email hash _ uuid now s2.db s3.db u e))
                λ u s3 h3.
                  Post-map _ _ _ (issue_tokens-Issues env prims settings u.id (role_text u.role) s3)
                    λ pair s' h.
                      let right : prims.compare_hash_and_password u.password_hash password ≡ true =
                        rw h3.0 (law k hash h2.0) in
                      let users : s'.db.users ≡ s3.db.users = ap (λ d. d.users) h.2.4 in
                      let before : s2.db.users ≡ s.db.users = ap (λ d. d.users) (h2.1 ∙ h1) in
                      (
                        u,
                        h3.1,
                        rw before at h3.2,
                        login-issues env prims settings email password u s' (good s'.step)
                            (rw users h3.4) right,
                      )

  given :
      {A : Type 0} {o : Option A} {a : A} {s : Session D} → o ≡ some a → or_failed o s ≡ (ok a, s)
  unfolding or_failed pure
  given h = rw h refl

  refused :
      {A : Type 0} (m : Action D A) (e : Error D) (s : Session D) {s' : Session D}
      → (contains "duplicate" (prims.error_text (constraint unique_violation)) ≡ true)
      → m s ≡ (err (constraint unique_violation), s')
      → or_unique prims m e s ≡ (err e, s')
  unfolding or_unique is_unique_violation
  refused m e s text h =
      elim (Bool-cases (contains "unique" (prims.error_text (constraint unique_violation)))) [
        | inl has ↦ rw (h, has) refl
        | inr other ↦ rw (h, other, text) refl
      ]

  -- In a database that does not fail, where the text of a unique violation contains duplicate:
  -- Register with a known role, a password that can be hashed, texts that fit their columns and
  -- the email of a user ends in USER_ALREADY_EXISTS, and writes nothing.
  pub register-taken :
      (email password role : String) (v : UserRole) (hash : String) (u : User) (s : Session D)
      → ((k : ℕ) → env.fault k ≡ false)
      → (contains "duplicate" (prims.error_text (constraint unique_violation)) ≡ true)
      → parse_role (default_role role) ≡ some v
      → prims.generate_from_password s.step password ≡ some hash
      → count email ≤ 255
      → count hash ≤ 255
      → first_row (has_email email) s.db.users ≡ some u
      → register env prims settings email password role s
        ≡ (err (app_error user_already_exists), one_step env (one_step env s))
  unfolding register next_step
  register-taken email password role v hash u s good text known made short short_hash there =
      >>=-ok next_step s _ refl
      ∙ >>=-ok (or_failed (prims.generate_from_password s.step password)) (one_step env s) _
          (given made)
      ∙ >>=-err _ (one_step env s) _ (
          refused _ _ (one_step env s) text (
            pool-err env _ (one_step env s) (good _)
              (taken email hash _ v u _ _ s.db known short short_hash there)))
