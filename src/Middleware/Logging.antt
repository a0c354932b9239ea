-- ===== src/Middleware/Logging.antt =====
-- internal/middleware/logging.go: the log of requests.
pub mod Masking
pub mod Passing
use soa_hw.Base.{
  ℕ, String, str_eq, Bool, true, false, ◌&&◌, ◌||◌, ◌==◌, if◌then◌else◌, Option, none, some, List,
  [], ◌∷◌,
}
use soa_hw.Base.Int.{ℤ, pos, ltb_ℤ}
use soa_hw.Base.Lists.{take}
use soa_hw.Base.Texts.{contains}
use soa_hw.Middleware.Http.{Request, Served}

-- encoding/json for a value of type map[string]any, and strings.ToLower. `J` is the type of the
-- values; an object is the list of its members. The text null, which is printed as null again,
-- counts as no object.
pub record Json (J : Type 0) : Type 0 where
  pub unmarshal : List ℕ → Option (List (String × J))
  pub marshal : List (String × J) → List ℕ
  pub text : String → J
  pub to_lower : String → String

-- What one request leaves in the log, but for its times.
pub record Entry : Type 0 where
  pub request_id : ℕ
  pub method : String
  pub endpoint : String
  pub status_code : ℕ
  -- "" for uuid.Nil
  pub user_id : Option ℕ
  pub request_body : Option (List ℕ)

unfoldable pub is_mutating : String → Bool
is_mutating method = str_eq method "POST" || str_eq method "PUT" || str_eq method "DELETE"

-- 64*1024
abbrev pub body_limit : ℕ
body_limit = 65536

-- `isMutating(r.Method) && r.Body != nil && r.ContentLength > 0`
abbrev pub reads_body : Request → Bool
reads_body r = is_mutating r.method && ltb_ℤ (pos 0) r.content_length

-- The request that the next handler gets.
unfoldable pub passed_on : Request → Request
unfolding is_mutating
passed_on r = if reads_body r then record r { body = take body_limit r.body } else r

abbrev pub logged_id : ℕ → Option ℕ
logged_id id = if id == 0 then none else some id

-- `if bodyStr != ""`
abbrev pub logged_body : List ℕ → Option (List ℕ)
logged_body [] = none
logged_body (b ∷ bs) = some (b ∷ bs)

module _ {J : Type 0} (json : Json J) where
  -- `strings.Contains(…, "password") || strings.Contains(…, "token")`
  unfoldable pub is_sensitive : String → Bool
  is_sensitive key = contains "password" (json.to_lower key) || contains "token" (json.to_lower key)

  unfoldable pub mask : List (String × J) → List (String × J)
  unfolding is_sensitive
  mask [] = []
  mask ((key, value) ∷ members) =
      (key, if is_sensitive key then json.text "***" else value) ∷ mask members

  abbrev masked_or : List ℕ → Option (List (String × J)) → List ℕ
  masked_or body none = body
  masked_or body (some members) = json.marshal (mask members)

  -- `maskSensitive`
  unfoldable pub mask_sensitive : List ℕ → List ℕ
  unfolding mask
  mask_sensitive body = masked_or body (json.unmarshal body)

  -- `bodyStr`
  abbrev pub body_text : Request → List ℕ
  body_text r = if reads_body r then mask_sensitive (take body_limit r.body) else []

  -- The line that `Logger` writes once the next handler is done.
  unfoldable pub entry_of : {B : Type 0} → ℕ → Request → Served B → Entry
  unfolding is_mutating mask_sensitive
  entry_of id r served = record {
    request_id = id;
    method = r.method;
    endpoint = r.path;
    status_code = served.response.status;
    user_id = logged_id served.log_user;
    request_body = logged_body (body_text r);
  }
