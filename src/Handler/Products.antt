-- ===== src/Handler/Products.antt =====
-- internal/handler/products.go. The caller's id and role come from the request's context.
pub mod Answers
pub mod Requests
use soa_hw.Base.{ℕ, String, Option, none, some, List, [], ◌∷◌}
use soa_hw.Base.Int.{ℤ, pos, to_int32}
use soa_hw.ApiErr.{Code, named, product_not_found, access_denied}
use soa_hw.Store.Schema.{Product, ProductStatus}
use soa_hw.Store.Env.{Env, Floats}
use soa_hw.Products as Service
use soa_hw.Products.{CreateProductInput, UpdateProductInput, ListProductsInput, PagedProducts}
use soa_hw.Handler.Validation.{Validator, min_len, max_len, min_float, min_int, verdict}
use soa_hw.Handler.Response.{
  ErrorResponse, Outcome, success, refusal, failure, Handled, require_role, unless, call, switched,
}

-- api.ProductCreate, and the same fields of api.ProductUpdate
pub record ProductBody (F : Type 0) : Type 0 where
  pub name : String
  pub description : Option String
  pub price : F
  pub stock : ℤ
  pub category : String

-- The parameters of GET /products
pub record ListParams : Type 0 where
  pub page : Option ℤ
  pub size : Option ℤ
  pub status : Option String
  pub category : Option String

-- api.ProductResponse
pub record ProductResponse (F : Type 0) : Type 0 where
  pub id : ℕ
  pub name : String
  pub description : Option String
  pub price : F
  pub stock : ℕ
  pub category : String
  pub status : ProductStatus
  pub seller_id : Option ℕ
  pub created_at : ℕ
  pub updated_at : ℕ

-- api.PagedProducts
pub record PagedResponse (F : Type 0) : Type 0 where
  pub items : List (ProductResponse F)
  pub total_elements : ℕ
  pub page : ℤ
  pub size : ℤ

abbrev pub sellers : List String
sellers = "SELLER" ∷ "ADMIN" ∷ []

-- `if x != nil { v = int32(*x) }`
abbrev pub int32_or : ℤ → Option ℤ → ℤ
int32_or default none = default
int32_or default (some x) = to_int32 x

abbrev pub list_input : ListParams → ListProductsInput
list_input params = record {
  page = int32_or (pos 0) params.page;
  size = int32_or (pos 20) params.size;
  status = params.status;
  category = params.category;
}

unfoldable pub check_description : Option String → Validator → Validator
check_description none v = v
check_description (some text) v = max_len "description" text 4000 v

module _ {D A : Type 0} where
  get_switch : Code → ErrorResponse D → Outcome D A → Outcome D A
  get_switch product_not_found r other = refusal 404 r
  get_switch _ r other = other

  change_switch : Code → ErrorResponse D → Outcome D A → Outcome D A
  change_switch product_not_found r other = refusal 404 r
  change_switch access_denied r other = refusal 403 r
  change_switch _ r other = other

module _ {D F : Type 0} (floats : Floats D F) where
  unfoldable pub check_product : ProductBody F → Validator
  check_product body = check_description body.description (
      max_len "category" body.category 100 (
        min_len "category" body.category 1 (
          min_int (named "stock") body.stock 0 (
            min_float floats "price" body.price
              (max_len "name" body.name 255 (min_len "name" body.name 1 []))))))

  -- `toProductResponse`
  unfoldable pub to_product_response : Product D → ProductResponse F
  to_product_response p = record {
    id = p.id;
    name = p.name;
    description = p.description;
    price = floats.inexact_float64 p.price;
    stock = p.stock;
    category = p.category;
    status = p.status;
    seller_id = p.seller_id;
    created_at = p.created_at;
    updated_at = p.updated_at;
  }

  to_product_responses : List (Product D) → List (ProductResponse F)
  to_product_responses [] = []
  to_product_responses (p ∷ ps) = to_product_response p ∷ to_product_responses ps

  unfoldable pub to_paged_response : PagedProducts D → PagedResponse F
  unfolding to_product_responses
  to_paged_response r = record {
    items = to_product_responses r.items;
    total_elements = r.total_elements;
    page = r.page;
    size = r.size;
  }

abbrev pub create_input : {F : Type 0} → ℕ → ProductBody F → CreateProductInput F
create_input caller body = record {
  name = body.name;
  description = body.description;
  price = body.price;
  stock = to_int32 body.stock;
  category = body.category;
  seller_id = caller;
}

abbrev pub update_input : {F : Type 0} → ProductBody F → String → UpdateProductInput F
update_input body status = record {
  name = body.name;
  description = body.description;
  price = body.price;
  stock = to_int32 body.stock;
  category = body.category;
  status = status;
}

module _ {D F : Type 0} (env : Env D) (floats : Floats D F) where
  abbrev reply_with : ℕ → Product D → Outcome D (ProductResponse F)
  reply_with status p = success status (to_product_response floats p)

  -- `Handler.ListProducts`
  unfoldable pub list_products : ListParams → Handled D (PagedResponse F)
  list_products params =
      call (Service.list env (list_input params)) failure
        (λ r. success 200 (to_paged_response floats r))

  -- `Handler.CreateProduct`
  unfoldable pub create_product : ℕ → String → ProductBody F → Handled D (ProductResponse F)
  create_product caller role body = unless (require_role role sellers) 403 (
      unless (verdict (check_product floats body)) 400
        (call (Service.create env floats (create_input caller body)) failure (reply_with 201)))

  -- `Handler.GetProduct`
  unfoldable pub get_product : ℕ → Handled D (ProductResponse F)
  unfolding get_switch
  get_product id = call (Service.get_by_id env id) (switched get_switch) (reply_with 200)

  -- `Handler.UpdateProduct`
  unfoldable pub update_product :
      ℕ → ℕ → String → ProductBody F → String → Handled D (ProductResponse F)
  unfolding change_switch
  update_product id caller role body status = unless (require_role role sellers) 403 (
      unless (verdict (check_product floats body)) 400 (
        call (Service.update env floats id (update_input body status) caller role)
          (switched change_switch) (reply_with 200)))

  -- `Handler.DeleteProduct`
  unfoldable pub delete_product : ℕ → ℕ → String → Handled D (ProductResponse F)
  unfolding change_switch
  delete_product id caller role =
      unless (require_role role sellers) 403
        (call (Service.delete env id caller role) (switched change_switch) (reply_with 200))
