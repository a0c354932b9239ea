-- ===== src/Handler/Products/Requests.antt =====
-- Which requests the handlers of internal/handler/products.go let through to the service.
use Prim.Native.String.{count}
use soa_hw.Base.{ℕ, ◌≤◌, String, false, ltb, ◌≡◌, ◌↔◌, refl, arith, Option, none, some, []}
use soa_hw.Base.Int.{ℤ, pos, negsuc, ltb_ℤ}
use soa_hw.ApiErr.{named, min_length, max_length, minimum, minimum_price}
use soa_hw.Store.Env.{Floats}
use soa_hw.Handler.Validation.{Validator, min_len, max_len, min_float, min_int, verdict}
use soa_hw.Handler.Validation.Clean.{add_if_clean, clean-verdict}
use soa_hw.Handler.Products.{ProductBody, check_description, check_product}

-- From `lo` to `hi` characters.
abbrev pub IsLength : ℕ → ℕ → String → Type 0
IsLength lo hi text = (lo ≤ count text) × (count text ≤ hi)

abbrev pub IsDescription : Option String → Type 0
IsDescription none = Unit
IsDescription (some text) = count text ≤ 4000

abbrev pub IsStock : ℤ → Type 0
IsStock (pos n) = Unit
IsStock (negsuc n) = ⊥

IsLength-clean :
    (field text : String) (lo hi : ℕ) (v : Validator)
    → (max_len field text hi (min_len field text lo v) ≡ []) ↔ (IsLength lo hi text × (v ≡ []))
unfolding max_len min_len
IsLength-clean field text lo hi v = (
  λ h.
      let (top, inner) = (add_if_clean (ltb hi (count text)) (named field) (max_length hi) _).0 h in
      let (bottom, clean) =
        (add_if_clean (ltb (count text) lo) (named field) (min_length lo) v).0 inner in
      ((ground arith, ground arith), clean),
  λ h. (add_if_clean (ltb hi (count text)) (named field) (max_length hi) _).1 (
    ground arith,
    (add_if_clean (ltb (count text) lo) (named field) (min_length lo) v).1 (ground arith, h.1),
  ),
)

IsDescription-clean :
    (text : Option String) (v : Validator)
    → (check_description text v ≡ []) ↔ (IsDescription text × (v ≡ []))
unfolding check_description max_len
IsDescription-clean none v = (λ h. (tt, h), λ h. h.1)
IsDescription-clean (some text) v =
    let test = add_if_clean (ltb 4000 (count text)) (named "description") (max_length 4000) v in
    (λ h. (ground (arith, (test.0 h).0), (test.0 h).1), λ h. test.1 (ground arith, h.1))

IsStock-clean :
    (stock : ℤ) (v : Validator)
    → (min_int (named "stock") stock 0 v ≡ []) ↔ (IsStock stock × (v ≡ []))
unfolding min_int
IsStock-clean (pos n) v =
    let test = add_if_clean (ltb_ℤ (pos n) (pos 0)) (named "stock") (minimum 0) v in
    (λ h. (tt, (test.0 h).1), λ h. test.1 (ground arith, h.1))
IsStock-clean (negsuc n) v =
    let test = add_if_clean (ltb_ℤ (negsuc n) (pos 0)) (named "stock") (minimum 0) v in
    (λ h. absurd (ground (arith, (test.0 h).0)), λ h. absurd h.0)

module _ {D F : Type 0} (floats : Floats D F) where
  -- What the checks ask of a body.
  abbrev pub IsProduct : ProductBody F → Type 0
  IsProduct body =
      IsDescription body.description
      × IsLength 1 100 body.category
      × IsStock body.stock
      × (floats.less_than body.price floats.one_hundredth ≡ false)
      × IsLength 1 255 body.name

  price_clean :
      (price : F) (v : Validator)
      → (min_float floats "price" price v ≡ [])
        ↔ ((floats.less_than price floats.one_hundredth ≡ false) × (v ≡ []))
  unfolding min_float
  price_clean price v =
      add_if_clean (floats.less_than price floats.one_hundredth) (named "price") minimum_price v

  -- The checks of CreateProduct and UpdateProduct accept a body exactly if the name has 1 to 255
  -- characters, the category 1 to 100, the description, if there is one, at most 4000, the stock
  -- is not negative and the price is not below 0.01.
  pub IsProduct-checks_iff :
      (body : ProductBody F) → (verdict {D = D} (check_product floats body) ≡ none) ↔ IsProduct body
  unfolding check_product
  IsProduct-checks_iff body = (
    λ h.
        let (description, h1) =
          (IsDescription-clean body.description _).0 ((clean-verdict _).0 h) in
        let (category, h2) = (IsLength-clean "category" body.category 1 100 _).0 h1 in
        let (stock, h3) = (IsStock-clean body.stock _).0 h2 in
        let (price, h4) = (price_clean body.price _).0 h3 in
        (description, category, stock, price, ((IsLength-clean "name" body.name 1 255 []).0 h4).0),
    λ h. (clean-verdict _).1 (
        (IsDescription-clean body.description _).1 (
          h.0,
          (IsLength-clean "category" body.category 1 100 _).1 (
            h.1,
            (IsStock-clean body.stock _).1 (
              h.2,
              (price_clean body.price _).1
                  (h.3, (IsLength-clean "name" body.name 1 255 []).1 (h.4, refl)),
            ),
          ),
        )),
  )
