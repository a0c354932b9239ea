-- ===== src/Middleware/Auth/Tokens.antt =====
-- Access tokens of `AuthService` at the door of internal/middleware/auth.go.
use Prim.Native.String.{◌++◌}
use soa_hw.Base.{
  Bool-cases, inl, inr, ltb, ◌+◌, ℕ, ◌<◌, String, str_eq, true, false, ◌≡◌, ◌∙◌, refl, ap, arith,
  eq_iff, some, if◌then◌else◌,
}
use soa_hw.Base.Texts.{has_prefix-append, trim_prefix-append, has_prefix}
use soa_hw.ApiErr.{token_expired}
use soa_hw.Store.Env.{Env}
use soa_hw.Store.Session.{Session}
use soa_hw.Store.Session.Laws.{Post, Post-map}
use soa_hw.Auth.{Primitives, Settings, Claims, claims, issue_tokens}
use soa_hw.Auth.Access.Issued.{issue_tokens-Issues}
use soa_hw.Middleware.Auth.{
  ReadClaims, parsed, unparsed, Jwt, rejected, accepted, key_of, with_subject, with_token,
  authenticate,
}

-- The claims of a token, as they are read back.
abbrev pub read_back : Jwt → Claims → ReadClaims
read_back jwt c = record { subject = jwt.uuid_string c.subject; role = c.role }

module _ {D : Type 0} where
  -- What golang-jwt and google/uuid document: a token that was signed with the secret is valid for the
  -- same secret until it expires, then it is reported as expired; a printed uuid parses to itself.
  pub record Reads (jwt : Jwt) (prims : Primitives D) : Type 0 where
    pub valid :
        (secret token : String) (c : Claims) (now : ℕ)
        → prims.signed_string secret c ≡ some token
        → now < c.expires_at
        → jwt.parse_with_claims (key_of secret) now token ≡ parsed true (read_back jwt c)
    pub expired :
        (secret token : String) (c : Claims) (now : ℕ)
        → prims.signed_string secret c ≡ some token
        → ¬ (now < c.expires_at)
        → jwt.parse_with_claims (key_of secret) now token ≡ unparsed true
    pub uuids : (id : ℕ) → jwt.uuid_parse (jwt.uuid_string id) ≡ some id

not_empty : (token : String) → str_eq ("Bearer " ++ token) "" ≡ false
unfolding has_prefix
not_empty token = elim (Bool-cases (str_eq ("Bearer " ++ token) "")) [
  | inl same ↦
      let e : "Bearer " ++ token ≡ "" = (eq_iff ("Bearer " ++ token) "").0 same in
      cc (ap (has_prefix "Bearer ") e, has_prefix-append "Bearer " token)
  | inr other ↦ other
]

bearer :
    (jwt : Jwt) (secret token : String) (now : ℕ)
    → authenticate jwt secret now ("Bearer " ++ token)
      ≡ with_token jwt (jwt.parse_with_claims (key_of secret) now token)
unfolding authenticate
bearer jwt secret token now =
    rw (not_empty token, has_prefix-append "Bearer " token, trim_prefix-append "Bearer " token) refl

module _ {D : Type 0} (jwt : Jwt) (prims : Primitives D) (laws : Reads jwt prims) where
  signed :
      (secret token : String) (c : Claims) (now : ℕ)
      → prims.signed_string secret c ≡ some token
      → authenticate jwt secret now ("Bearer " ++ token) ≡ (
          if ltb now c.expires_at
          then accepted (record { user_id = c.subject; role = c.role })
          else rejected token_expired)
  unfolding with_token with_subject
  signed secret token c now e = elim (Bool-cases (ltb now c.expires_at)) [
    | inl early ↦
        bearer jwt secret token now
        ∙ rw (laws.valid secret token c now e (ground arith), early, laws.uuids c.subject) refl
    | inr late ↦
        bearer jwt secret token now
        ∙ rw (laws.expired secret token c now e (ground arith), late) refl
  ]

  -- Where a signed token can be parsed with the secret it was signed with until it expires and is
  -- reported as expired from then on, and a printed uuid parses to itself: when issueTokens
  -- succeeds, its access token after Bearer is accepted by Auth as the same user with the same
  -- role before the expiry, and is rejected with TOKEN_EXPIRED after it.
  pub issue_tokens-authenticate :
      (env : Env D) (settings : Settings) (user : ℕ) (role : String) (now : ℕ) (s : Session D)
      → Post
          (λ pair s'. authenticate jwt settings.jwt_secret now ("Bearer " ++ pair.access_token) ≡ (
            if ltb now (prims.numeric_date (env.clock s.step + settings.access_ttl))
            then accepted (record { user_id = user; role = role })
            else rejected token_expired))
          (issue_tokens env prims settings user role s)
  issue_tokens-authenticate env settings user role now s =
      Post-map _ _ _ (issue_tokens-Issues env prims settings user role s) λ pair s' h.
        signed settings.jwt_secret pair.access_token (claims env prims settings user _ role) now h.0
