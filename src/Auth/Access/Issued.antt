-- ===== src/Auth/Access/Issued.antt =====
-- What `issueTokens` of `AuthService` hands out and stores.
use soa_hw.Base.{ℕ, ◌+◌, String, ◌≡◌, refl, ap, ◌∙◌, Option, some, none, ◌∷◌, is_some, not}
use soa_hw.Base.Rows.{first_row, find_row}
use soa_hw.Store.Schema.{Db, RefreshToken}
use soa_hw.Store.Env.{Env}
use soa_hw.Store.Session.{Session, ok, time_now, pure, raise}
use soa_hw.Store.Session.Laws.{Post, Post-bind, Post-seq, Post-pool, Post-pure}
use soa_hw.Store.Queries.{create_refresh_token, has_hash, token_id}
use soa_hw.Store.Queries.Checks.{user_id, >>=-passed, require, varchar}
use soa_hw.Auth.{Primitives, Settings, TokenPair, claims, issue_tokens, next_step, or_failed}

abbrev pub row_of : ℕ → ℕ → ℕ → String → ℕ → RefreshToken
row_of uuid now user hash expires = record {
  id = uuid;
  user_id = user;
  token_hash = hash;
  expires_at = expires;
  created_at = now;
}

module _ {D : Type 0} where
  stored_token :
      (user : ℕ) (hash : String) (expires uuid now : ℕ) (db db' : Db D) (t : RefreshToken)
      → create_refresh_token user hash expires uuid now db ≡ ok (t, db')
      → (t ≡ row_of uuid now user hash expires)
        × (db' ≡ record db { refresh_tokens = t ∷ db.refresh_tokens })
  unfolding create_refresh_token
  stored_token user hash expires uuid now db db' t h =
      let (_, long, h1) = >>=-passed (varchar 64 hash) _ h in
      let (_, fresh, h2) =
        >>=-passed (require (not (is_some (find_row token_id uuid db.refresh_tokens))) _) _ h1 in
      let (_, other, h3) =
        >>=-passed (require (not (is_some (first_row (has_hash hash) db.refresh_tokens))) _) _ h2 in
      let (_, known, h4) = >>=-passed (require (is_some (find_row user_id user db.users)) _) _ h3 in
      let row : t ≡ row_of uuid now user hash expires = cc (h4) in (row, rw row (cc (h4)))

  pub or_failed-Post :
      {A : Type 0} (o : Option A) (s : Session D)
      → Post (λ a s'. (o ≡ some a) × (s'.db ≡ s.db)) (or_failed o s)
  unfolding or_failed pure raise Post
  or_failed-Post none s = tt
  or_failed-Post (some a) s = (refl, refl)

  pub next_step-Post : (s : Session D) → Post (λ k s'. s'.db ≡ s.db) (next_step s)
  unfolding next_step Post
  next_step-Post s = refl

  time_now-Post :
      (env : Env D) (s : Session D)
      → Post (λ now s'. (now ≡ env.clock s.step) × (s'.db ≡ s.db)) (time_now env s)
  unfolding time_now Post
  time_now-Post env s = (refl, refl)

module _ {D : Type 0} (env : Env D) (prims : Primitives D) (settings : Settings) where
  -- The pair is for this user and role, and the only change of the tables is a row for the refresh
  -- token, on top of the others.
  abbrev pub Issues : ℕ → String → ℕ → Db D → TokenPair → Session D → Type 0
  Issues user role now db pair s =
      (prims.signed_string settings.jwt_secret (claims env prims settings user now role)
        ≡ some pair.access_token)
      × ((k : ℕ) × (pair.refresh_token ≡ prims.new_token k))
      × ((t : RefreshToken) × (t.user_id ≡ user)
          × (t.token_hash ≡ prims.sha256_hex pair.refresh_token)
          × (t.expires_at ≡ now + settings.refresh_ttl)
          × (s.db ≡ record db { refresh_tokens = t ∷ db.refresh_tokens }))

  -- When issueTokens succeeds: the access token is the signature of claims with this user, this
  -- role and the expiry; the only change of the tables is one row for this user, with the hash of
  -- the refresh token that is handed out and the expiry of refresh tokens.
  pub issue_tokens-Issues :
      (user : ℕ) (role : String) (s : Session D)
      → Post
          (Issues user role (env.clock s.step) s.db)
          (issue_tokens env prims settings user role s)
  unfolding issue_tokens
  issue_tokens-Issues user role s =
      Post-bind (λ now s1. (now ≡ env.clock s.step) × (s1.db ≡ s.db)) _ _ _ s (time_now-Post env s)
        λ now s1 h1.
          Post-bind
            (λ a s2.
              (prims.signed_string settings.jwt_secret (claims env prims settings user now role)
                ≡ some a)
              × (s2.db ≡ s1.db))
            _ _ _ s1 (or_failed-Post _ s1)
            λ access s2 h2.
              Post-bind (λ k s3. s3.db ≡ s2.db) _ _ _ s2 (next_step-Post s2)
                λ k s3 h3.
                  Post-seq
                    (λ t s4.
                      (t.user_id ≡ user)
                      × (t.token_hash ≡ prims.sha256_hex (prims.new_token k))
                      × (t.expires_at ≡ now + settings.refresh_ttl)
                      × (s4.db ≡ record s3.db { refresh_tokens = t ∷ s3.db.refresh_tokens }))
                    _ _ _ s3
                    (Post-pool env _ _ s3 λ s4 uuid at t e.
                      let (row, tables) = stored_token user _ _ uuid at s3.db s4.db t e in
                      (
                        ap (λ r. r.user_id) row,
                        ap (λ r. r.token_hash) row,
                        ap (λ r. r.expires_at) row,
                        tables,
                      ))
                    λ t s4 h4. Post-pure _ _ s4 (
                      rw h1.0 at h2.0,
                      (k, refl),
                      (
                        t,
                        h4.0,
                        h4.1,
                        h4.2 ∙ ap (λ n. n + settings.refresh_ttl) h1.0,
                        h4.3
                            ∙ ap {A = Db D}
                                (λ d. record d { refresh_tokens = t ∷ d.refresh_tokens })
                                (h3 ∙ h2.1 ∙ h1.1),
                      ),
                    )
