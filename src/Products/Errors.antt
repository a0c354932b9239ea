-- ===== src/Products/Errors.antt =====
-- The application errors of `ProductService` in internal/service/products.go.
use soa_hw.Base.{ℕ, String, Bool, true, false, Option, refl, arith}
use soa_hw.Base.Int.{ℤ}
use soa_hw.ApiErr.{Code, product_not_found, access_denied}
use soa_hw.Store.Env.{Env, Floats, Decimals}
use soa_hw.Store.Session.{Session}
use soa_hw.Store.Session.Errors.{
  IsPlain, Raises, Raises-bind, Raises-seq, Raises-or_no_rows, Raises-raise_if, Raises-pool, made,
}
use soa_hw.Store.Queries.{
  ProductParams, get_product_by_id, create_product, update_product, archive_product, list_products,
  count_products,
}
use soa_hw.Products.{
  CreateProductInput, UpdateProductInput, get_by_id, check_owner, create, update, delete,
}

abbrev pub product_codes : Code → Bool
product_codes product_not_found = true
product_codes access_denied = true
product_codes _ = false

abbrev pub missing_code : Code → Bool
missing_code product_not_found = true
missing_code _ = false

module _ {D : Type 0} where
  get_product_by_id-IsPlain : (id : ℕ) → IsPlain {D = D} (get_product_by_id id)
  unfolding get_product_by_id
  get_product_by_id-IsPlain id uuid now db e h = ground arith

  create_product-IsPlain :
      (dec : Decimals D) (p : ProductParams D) (seller : Option ℕ)
      → IsPlain (create_product dec p seller)
  unfolding create_product
  create_product-IsPlain dec p seller uuid now db e h = ground arith

  update_product-IsPlain :
      (dec : Decimals D) (id : ℕ) (p : ProductParams D) → IsPlain (update_product dec id p)
  unfolding update_product
  update_product-IsPlain dec id p uuid now db e h = ground arith

  archive_product-IsPlain : (id : ℕ) → IsPlain {D = D} (archive_product id)
  unfolding archive_product
  archive_product-IsPlain id uuid now db e h = ground arith

  list_products-IsPlain :
      (ties : ℕ → ℕ → ℕ) (status category : Option String) (limit offset : ℤ)
      → IsPlain {D = D} (list_products ties status category limit offset)
  unfolding list_products
  list_products-IsPlain ties status category limit offset uuid now db e h = ground arith

  count_products-IsPlain :
      (status category : Option String) → IsPlain {D = D} (count_products status category)
  unfolding count_products
  count_products-IsPlain status category uuid now db e h = ground arith

module _ {D : Type 0} (env : Env D) where
  pub get_by_id-Raises : (id : ℕ) (s : Session D) → Raises missing_code (get_by_id env id s)
  unfolding get_by_id
  get_by_id-Raises id s =
      Raises-or_no_rows missing_code _ _ s
        (Raises-pool missing_code env _ s (get_product_by_id-IsPlain id))
        (made D missing_code product_not_found refl)

  check_owner-Raises :
      (id caller : ℕ) (role : String) (s : Session D)
      → Raises product_codes (check_owner env id caller role s)
  unfolding check_owner get_by_id
  check_owner-Raises id caller role s =
      Raises-bind product_codes _ _ s
        (Raises-or_no_rows product_codes _ _ s
          (Raises-pool product_codes env _ s (get_product_by_id-IsPlain id))
          (made D product_codes product_not_found refl))
        λ p s1. Raises-raise_if product_codes _ _ s1 (made D product_codes access_denied refl)

  pub delete-Raises :
      (id caller : ℕ) (role : String) (s : Session D)
      → Raises product_codes (delete env id caller role s)
  unfolding delete
  delete-Raises id caller role s =
      Raises-seq product_codes _ _ s (check_owner-Raises id caller role s)
        λ s1. Raises-pool product_codes env _ s1 (archive_product-IsPlain id)

  module _ {F : Type 0} (floats : Floats D F) where
    pub create-Raises :
        (input : CreateProductInput F) (s : Session D)
        → Raises (λ _. false) (create env floats input s)
    unfolding create
    create-Raises input s = Raises-pool _ env _ s (create_product-IsPlain _ _ _)

    pub update-Raises :
        (id caller : ℕ) (role : String) (input : UpdateProductInput F) (s : Session D)
        → Raises product_codes (update env floats id input caller role s)
    unfolding update
    update-Raises id caller role input s =
        Raises-seq product_codes _ _ s (check_owner-Raises id caller role s)
          λ s1. Raises-pool product_codes env _ s1 (update_product-IsPlain _ id _)
