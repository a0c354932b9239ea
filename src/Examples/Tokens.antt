-- ===== src/Examples/Tokens.antt =====
-- A toy of golang-jwt that knows one token, and what it keeps.
use Prim.Native.String.{◌++◌}
use soa_hw.Base.{
  ℕ, suc, zero, ◌==◌, ==_iff, ltb, ◌<◌, ◌+◌, String, str_eq, eq_iff, Bool, true, false, ◌&&◌, ◌≡◌,
  refl, ap, arith, Option, none, some, if◌then◌else◌,
}
use soa_hw.Auth.{Primitives, Claims, issue_tokens}
use soa_hw.ApiErr.{token_expired}
use soa_hw.Store.Session.Laws.{Post}
use soa_hw.Middleware.Auth.{Parsed, parsed, unparsed, Jwt, key_of, authenticate, accepted, rejected}
use soa_hw.Middleware.Auth.Tokens.{Reads, issue_tokens-authenticate}
use soa_hw.Examples.Data.{plain, still, settings, session}

-- Uuids as rows of characters.
unfoldable pub unary : ℕ → String
unary zero = ""
unary (suc n) = String.◌∷◌ "a" (unary n)

unfoldable pub size : String → ℕ
size String.[] = 0
size (String.◌∷◌ c cs) = suc (size cs)

size-unary : (n : ℕ) → size (unary n) ≡ n
unfolding size unary
size-unary zero = refl
size-unary (suc n) = ap suc (size-unary n)

-- The claims of the one token, and its expiry.
abbrev expiry : ℕ
expiry = 900000000005

abbrev is_known : String → Claims → Bool
is_known secret c =
    str_eq secret "secret" && (c.subject == 5) && (c.expires_at == expiry) && str_eq c.role "USER"

abbrev has_key : Option String → Bool
has_key none = false
has_key (some key) = str_eq key "secret"

abbrev pub signing : Primitives ℕ
signing = record plain { signed_string = λ secret c. if is_known secret c then some "t" else none }

abbrev known : Parsed
known = parsed true (record { subject = unary 5; role = "USER" })

abbrev pub toy : Jwt
toy = record {
  parse_with_claims = λ key now token.
      if has_key (key true) && str_eq token "t" && ltb now expiry
      then known
      else unparsed (has_key (key true) && str_eq token "t");
  uuid_string = unary;
  uuid_parse = λ text. some (size text);
}

-- What a signature says of what was signed.
signed_known :
    (secret token : String) (c : Claims)
    → signing.signed_string secret c ≡ some token
    → (secret ≡ "secret")
      × (token ≡ "t")
      × (c.subject ≡ 5)
      × (c.expires_at ≡ expiry)
      × (c.role ≡ "USER")
signed_known secret token c e = ground (
  arith,
  e,
  eq_iff secret "secret",
  eq_iff c.role "USER",
  ==_iff c.subject 5,
  ==_iff c.expires_at expiry,
)

toy-valid :
    (secret token role : String) (subject expires now : ℕ)
    → (secret ≡ "secret") × (token ≡ "t") × (subject ≡ 5) × (expires ≡ expiry) × (role ≡ "USER")
    → now < expires
    → toy.parse_with_claims (key_of secret) now token
      ≡ parsed true (record { subject = unary subject; role = role })
toy-valid secret token role subject expires now k early =
    let in_time : ltb now expiry ≡ true = ground (arith, early, k.3) in
    rw (k.0, k.1, k.2, k.4, in_time) refl

toy-expired :
    (secret token : String) (expires now : ℕ)
    → (secret ≡ "secret") × (token ≡ "t") × (expires ≡ expiry)
    → ¬ (now < expires)
    → toy.parse_with_claims (key_of secret) now token ≡ unparsed true
toy-expired secret token expires now k late =
    let out : ltb now expiry ≡ false = ground (arith, late, k.2) in rw (k.0, k.1, out) refl

toy-Reads : Reads toy signing
toy-Reads = record {
  valid = λ secret token c now e early.
      toy-valid secret token c.role c.subject c.expires_at now (signed_known secret token c e)
        early;
  expired = λ secret token c now e late.
      let k = signed_known secret token c e in
      toy-expired secret token c.expires_at now (k.0, k.1, k.3) late;
  uuids = λ id. ap some (size-unary id);
}

-- A token of the user 5, presented before it expires.
issue_tokens-authenticate_example :
    Post
      (λ pair s'. authenticate toy settings.jwt_secret 7 ("Bearer " ++ pair.access_token) ≡ (
        if ltb 7 (signing.numeric_date (still.clock session.step + settings.access_ttl))
        then accepted (record { user_id = 5; role = "USER" })
        else rejected token_expired))
      (issue_tokens still signing settings 5 "USER" session)
issue_tokens-authenticate_example =
    issue_tokens-authenticate toy signing toy-Reads still settings 5 "USER" 7 session
