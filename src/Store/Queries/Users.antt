-- ===== src/Store/Queries/Users.antt =====
-- internal/db/queries/users.sql: the statements of the auth service.
use soa_hw.Base.{ℕ, String, str_eq, Bool, not, ◌==◌, ◌&&◌, ltb, List, ◌∷◌, is_some}
use soa_hw.Base.Rows.{find_row, first_row, filter_rows}
use soa_hw.Store.Schema.{User, UserRole, parse_role, RefreshToken}
use soa_hw.Store.Session.{Query, ok, constraint, unique_violation, foreign_key_violation}
use soa_hw.Store.Queries.Checks.{user_id, one, require, varchar, enum_value, ◌>>=◌, ◌>>◌}

abbrev pub has_email : String → User → Bool
has_email email u = str_eq u.email email

abbrev pub has_hash : String → RefreshToken → Bool
has_hash hash t = str_eq t.token_hash hash

abbrev pub token_id : RefreshToken → ℕ
token_id t = t.id

-- `JOIN users u ON u.id = rt.user_id WHERE rt.token_hash = $1 AND rt.expires_at > NOW()`
abbrev pub is_valid : String → ℕ → List User → RefreshToken → Bool
is_valid hash now us t =
    has_hash hash t && ltb now t.expires_at && is_some (find_row user_id t.user_id us)

module _ {D : Type 0} where
  unfoldable pub create_user : String → String → String → Query D User
  create_user email hash role uuid now db = do
    value ← enum_value (parse_role role)
    varchar 255 email
    varchar 255 hash
    require (not (is_some (find_row user_id uuid db.users))) (constraint unique_violation)
    require (not (is_some (first_row (has_email email) db.users))) (constraint unique_violation)
    let u : User = record {
      id = uuid;
      email = email;
      password_hash = hash;
      role = value;
      created_at = now;
    }
    ok (u, record db { users = u ∷ db.users })

  unfoldable pub get_user_by_email : String → Query D User
  get_user_by_email email uuid now db = do
    u ← one (first_row (has_email email) db.users)
    ok (u, db)

  -- No method calls it.
  unfoldable pub get_user_by_id : ℕ → Query D User
  get_user_by_id id uuid now db = do u ← one (find_row user_id id db.users); ok (u, db)

  unfoldable pub create_refresh_token : ℕ → String → ℕ → Query D RefreshToken
  create_refresh_token user hash expires uuid now db = do
    varchar 64 hash
    require (not (is_some (find_row token_id uuid db.refresh_tokens))) (constraint unique_violation)
    require (not (is_some (first_row (has_hash hash) db.refresh_tokens)))
        (constraint unique_violation)
    require (is_some (find_row user_id user db.users)) (constraint foreign_key_violation)
    let t : RefreshToken = record {
      id = uuid;
      user_id = user;
      token_hash = hash;
      expires_at = expires;
      created_at = now;
    }
    ok (t, record db { refresh_tokens = t ∷ db.refresh_tokens })

  -- The token's row, and the role of its user.
  unfoldable pub get_refresh_token : String → Query D (RefreshToken × UserRole)
  get_refresh_token hash uuid now db = do
    t ← one (first_row (is_valid hash now db.users) db.refresh_tokens)
    u ← one (find_row user_id t.user_id db.users)
    ok ((t, u.role), db)

  unfoldable pub delete_refresh_token : String → Query D (Unit {0})
  delete_refresh_token hash uuid now db = ok (
    tt,
    record db { refresh_tokens = filter_rows (λ t. not (has_hash hash t)) db.refresh_tokens },
  )

  -- No method calls it.
  unfoldable pub delete_user_refresh_tokens : ℕ → Query D (Unit {0})
  delete_user_refresh_tokens user uuid now db = ok (
    tt,
    record db { refresh_tokens = filter_rows (λ t. not (t.user_id == user)) db.refresh_tokens },
  )
