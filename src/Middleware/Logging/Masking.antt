-- ===== src/Middleware/Logging/Masking.antt =====
-- What `maskSensitive` of internal/middleware/logging.go keeps out of the log.
use soa_hw.Base.{ℕ, String, true, ◌≡◌, refl, ap, some, List, [], ◌∷◌, if◌then◌else◌}
use soa_hw.Middleware.Logging.{Json, is_sensitive, mask, mask_sensitive}

module _ {J : Type 0} (json : Json J) where
  -- The same members, but for the values under keys that contain password or token in any case.
  pub data Alike : List (String × J) → List (String × J) → Type 0 where
    nothing : Alike [] []
    same :
        {key : String} {value : J} {ms ms' : List (String × J)}
        → Alike ms ms'
        → Alike ((key, value) ∷ ms) ((key, value) ∷ ms')
    secret :
        {key : String} {value value' : J} {ms ms' : List (String × J)}
        → is_sensitive json key ≡ true
        → Alike ms ms'
        → Alike ((key, value) ∷ ms) ((key, value') ∷ ms')

  mask-Alike : {ms ms' : List (String × J)} → Alike ms ms' → mask json ms ≡ mask json ms'
  unfolding mask
  mask-Alike nothing = refl
  mask-Alike (same {key} {value} h) =
      ap (λ rest. (key, if is_sensitive json key then json.text "***" else value) ∷ rest)
        (mask-Alike h)
  mask-Alike (secret {key} {value} {value'} known h) =
      rw known (ap (λ rest. (key, json.text "***") ∷ rest) (mask-Alike h))

  -- For two bodies that are JSON objects with the same members, but for the values under keys that
  -- in lower case contain password or token: maskSensitive gives the same text.
  pub mask_sensitive-Alike :
      (body body' : List ℕ) {ms ms' : List (String × J)}
      → json.unmarshal body ≡ some ms
      → json.unmarshal body' ≡ some ms'
      → Alike ms ms'
      → mask_sensitive json body ≡ mask_sensitive json body'
  unfolding mask_sensitive
  mask_sensitive-Alike body body' e e' h = rw (e, e') (ap json.marshal (mask-Alike h))
