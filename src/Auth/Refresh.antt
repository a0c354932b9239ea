-- ===== src/Auth/Refresh.antt =====
-- `RefreshTokens` of `AuthService`: whom a refresh token serves, and how often.
use soa_hw.Base.{
  ℕ, suc, ◌+◌, ◌<◌, String, true, false, not, ◌≡◌, ◌≢◌, ◌∙◌, refl, ap, sym, arith, none, some, List,
  [], ◌∷◌, eq_iff, Bool-cases, inl, inr, ltb,
}
use soa_hw.Base.Rows.{find_row, first_row, filter_rows}
use soa_hw.ApiErr.{refresh_token_invalid}
use soa_hw.Store.Schema.{Db, User, RefreshToken, role_text}
use soa_hw.Store.Env.{Env}
use soa_hw.Store.Session.{Session, ok, err, no_rows}
use soa_hw.Store.Session.Pool.{
  one_step, pool-ok, pool-err, >>=-ok, >>=-err, >>-ok, or_no_rows-ok, or_no_rows-none, attempt_lem,
}
use soa_hw.Store.Session.Laws.{Post, Post-map}
use soa_hw.Store.Queries.{get_refresh_token, delete_refresh_token, has_hash, is_valid}
use soa_hw.Store.Queries.Checks.{user_id}
use soa_hw.Orders.Types.{app_error}
use soa_hw.Auth.{Primitives, Settings, TokenPair, issue_tokens, refresh_tokens}
use soa_hw.Auth.Access.Issued.{Issues, issue_tokens-Issues}

-- No token of a table has the hash.
abbrev without : String → List RefreshToken → List RefreshToken
without hash = filter_rows λ t. not (has_hash hash t)

gone :
    (hash : String) (now : ℕ) (us : List User) (ts : List RefreshToken)
    → first_row (is_valid hash now us) (without hash ts) ≡ none
unfolding first_row filter_rows
gone hash now us [] = refl
gone hash now us (t ∷ ts) = elim (Bool-cases (has_hash hash t)) [
  | inl same ↦ rw same (gone hash now us ts)
  | inr other ↦ rw (other, other) (gone hash now us ts)
]

skip :
    (hash : String) (now : ℕ) (us : List User) (t : RefreshToken) (ts : List RefreshToken)
    → t.token_hash ≢ hash
    → first_row (is_valid hash now us) (t ∷ ts) ≡ first_row (is_valid hash now us) ts
unfolding first_row
skip hash now us t ts h =
    let other : has_hash hash t ≡ false = ground (arith, eq_iff t.token_hash hash) in rw other refl

hit :
    (hash : String) (now : ℕ) (us : List User) (t : RefreshToken) (ts : List RefreshToken)
    {u : User}
    → t.token_hash ≡ hash
    → now < t.expires_at
    → find_row user_id t.user_id us ≡ some u
    → first_row (is_valid hash now us) (t ∷ ts) ≡ some t
unfolding first_row
hit hash now us t ts same early owner =
    let found : has_hash hash t ≡ true = ground (arith, eq_iff t.token_hash hash) in
    let in_time : ltb now t.expires_at ≡ true = ground arith in rw (found, in_time, owner) refl

module _ {D : Type 0} where
  token_found :
      (hash : String) (t : RefreshToken) (u : User) (uuid now : ℕ) (db : Db D)
      → first_row (is_valid hash now db.users) db.refresh_tokens ≡ some t
      → find_row user_id t.user_id db.users ≡ some u
      → get_refresh_token hash uuid now db ≡ ok ((t, u.role), db)
  unfolding get_refresh_token
  token_found hash t u uuid now db h k = rw (h, k)

  token_missing :
      (hash : String) (uuid now : ℕ) (db : Db D)
      → first_row (is_valid hash now db.users) db.refresh_tokens ≡ none
      → get_refresh_token hash uuid now db ≡ err no_rows
  unfolding get_refresh_token
  token_missing hash uuid now db h = rw h

  token_deleted :
      (hash : String) (uuid now : ℕ) (db : Db D)
      → delete_refresh_token hash uuid now db
        ≡ ok (tt, record db { refresh_tokens = without hash db.refresh_tokens })
  unfolding delete_refresh_token
  token_deleted hash uuid now db = refl

module _ {D : Type 0} (env : Env D) (prims : Primitives D) (settings : Settings) where
  -- The session after the token's row is deleted.
  abbrev pub spent : String → Session D → Session D
  spent token s = record s {
    db = record s.db { refresh_tokens = without (prims.sha256_hex token) s.db.refresh_tokens };
    step = suc (suc s.step);
  }

  invalid :
      (token : String) (s : Session D)
      → env.fault s.step ≡ false
      → first_row
          (is_valid (prims.sha256_hex token) (env.clock s.step) s.db.users)
          s.db.refresh_tokens
        ≡ none
      → refresh_tokens env prims settings token s
        ≡ (err (app_error refresh_token_invalid), one_step env s)
  unfolding refresh_tokens
  invalid token s good none_left =
      >>=-err _ s _
        (or_no_rows-none _ s _ (pool-err env _ s good (token_missing _ _ _ s.db none_left)))

  accepted :
      (token : String) (t : RefreshToken) (u : User) (s : Session D)
      → ((k : ℕ) → env.fault k ≡ false)
      → first_row
          (is_valid (prims.sha256_hex token) (env.clock s.step) s.db.users)
          s.db.refresh_tokens
        ≡ some t
      → find_row user_id t.user_id s.db.users ≡ some u
      → refresh_tokens env prims settings token s
        ≡ issue_tokens env prims settings t.user_id (role_text u.role) (spent token s)
  unfolding refresh_tokens
  accepted token t u s good found owner =
      >>=-ok _ s _
        (or_no_rows-ok _ s _ (pool-ok env _ s (good _) (token_found _ t u _ _ s.db found owner)))
      ∙ >>-ok _ (one_step env s) _ (
          attempt_lem _ (one_step env s)
            (pool-ok env _ (one_step env s) (good _) (token_deleted _ _ _ s.db)))

  -- A table of the tokens of `db` but for one, and a new one.
  exhausted :
      (hash : String) (now user : ℕ) (role : String) (db : Db D) (pair : TokenPair) (s : Session D)
      → ((k : ℕ) → prims.sha256_hex (prims.new_token k) ≢ hash)
      → (t : ℕ)
      → Issues env prims settings user role t
          (record db { refresh_tokens = without hash db.refresh_tokens })
          pair
          s
      → first_row (is_valid hash now s.db.users) s.db.refresh_tokens ≡ none
  exhausted hash now user role db pair s differs at
        (signed, (k, which), (t, owner, same, expiry, tables)) =
      let tokens : s.db.refresh_tokens ≡ t ∷ without hash db.refresh_tokens =
        ap (λ d. d.refresh_tokens) tables in
      rw tokens (
        skip hash now _ t _ (λ e. differs k (ap prims.sha256_hex (sym which) ∙ sym same ∙ e))
        ∙ gone hash now _ _)

  -- In a database that does not fail, for a refresh token that is stored, has not expired and has
  -- its user, and fresh tokens that all have other hashes than this one: when RefreshTokens gives
  -- a new pair, a second call with the old token ends in REFRESH_TOKEN_INVALID and writes nothing.
  pub refresh-once :
      (token : String) (t : RefreshToken) (u : User) (s : Session D)
      → ((k : ℕ) → env.fault k ≡ false)
      → ((k : ℕ) → prims.sha256_hex (prims.new_token k) ≢ prims.sha256_hex token)
      → first_row
          (is_valid (prims.sha256_hex token) (env.clock s.step) s.db.users)
          s.db.refresh_tokens
        ≡ some t
      → find_row user_id t.user_id s.db.users ≡ some u
      → Post
          (λ pair s'.
            refresh_tokens env prims settings token s'
            ≡ (err (app_error refresh_token_invalid), one_step env s'))
          (refresh_tokens env prims settings token s)
  refresh-once token t u s good differs found owner = rw (accepted token t u s good found owner) (
      Post-map _ _ _
        (issue_tokens-Issues env prims settings t.user_id (role_text u.role) (spent token s))
        λ pair s' h.
          invalid token s' (good _)
            (exhausted _ _ t.user_id (role_text u.role) s.db pair s' differs _ h))

  -- In a database that does not fail, for a user that is there and a clock that stays below the
  -- expiry of the refresh token: RefreshTokens with the refresh token that issueTokens gave for
  -- the user goes on to issue tokens for the same user, with the role that the user has.
  pub issue-refresh :
      (user : ℕ) (role : String) (u : User) (s : Session D)
      → ((k : ℕ) → env.fault k ≡ false)
      → ((k : ℕ) → env.clock k < env.clock s.step + settings.refresh_ttl)
      → find_row user_id user s.db.users ≡ some u
      → Post
          (λ pair s'.
            refresh_tokens env prims settings pair.refresh_token s'
            ≡ issue_tokens env prims settings user (role_text u.role) (spent pair.refresh_token s'))
          (issue_tokens env prims settings user role s)
  issue-refresh user role u s good early owner =
      Post-map _ _ _ (issue_tokens-Issues env prims settings user role s) λ pair s' h.
        let tokens : s'.db.refresh_tokens ≡ h.2.0 ∷ s.db.refresh_tokens =
          ap (λ d. d.refresh_tokens) h.2.4 in
        let users : s'.db.users ≡ s.db.users = ap (λ d. d.users) h.2.4 in
        let mine : find_row user_id h.2.0.user_id s'.db.users ≡ some u = rw (users, h.2.1) owner in
        let in_time : env.clock s'.step < h.2.0.expires_at = rw h.2.3 (early s'.step) in
        accepted pair.refresh_token h.2.0 u s' good
          (rw tokens (hit _ _ _ h.2.0 _ h.2.2 in_time mine)) mine
        ∙ rw h.2.1 refl
