-- ===== src/Store/Queries/Catalog.antt =====
-- internal/db/queries/products.sql: the statements of the product service.
pub mod Newest
use soa_hw.Base.{
  ℕ, String, str_eq, Bool, true, not, ◌&&◌, ◌||◌, ◌==◌, Option, none, some, List, [], ◌∷◌, ltb,
  if◌then◌else◌, is_some, length,
}
use soa_hw.Base.Int.{ℤ, pos, negsuc}
use soa_hw.Base.Lists.{take, drop}
use soa_hw.Base.Rows.{find_row, update_rows, filter_rows}
use soa_hw.Store.Schema.{User, Product, ProductStatus, archived, status_text, parse_status}
use soa_hw.Store.Env.{Decimals}
use soa_hw.Store.Session.{
  Result, Query, ok, err, constraint, unique_violation, foreign_key_violation, negative_limit,
}
use soa_hw.Store.Queries.Checks.{
  user_id, product_id, one, require, positive_amount, varchar, varchar_null, int4_from_0,
  enum_value, ◌>>=◌, ◌>>◌,
}

-- The parameters of CreateProduct and UpdateProduct; the stock is an int32.
pub record ProductParams (D : Type 0) : Type 0 where
  pub name : String
  pub description : Option String
  pub price : D
  pub stock : ℤ
  pub category : String
  pub status : String

-- `sqlc.narg(x)::text IS NULL OR value = sqlc.narg(x)`
abbrev pub matches : Option String → String → Bool
matches none value = true
matches (some wanted) value = str_eq value wanted

abbrev pub known_user : Option ℕ → List User → Bool
known_user none us = true
known_user (some id) us = is_some (find_row user_id id us)

module _ {D : Type 0} where
  -- The values of the columns, converted and checked.
  abbrev pub column_values : Decimals D → ProductParams D → Result D (ProductStatus × D × ℕ)
  column_values dec p = do
    status ← enum_value (parse_status p.status)
    varchar 255 p.name
    varchar_null 4000 p.description
    price ← positive_amount dec p.price
    stock ← int4_from_0 p.stock
    varchar 100 p.category
    ok (status, price, stock)

  abbrev pub stored : ℕ → ℕ → ProductParams D → ProductStatus × D × ℕ → Option ℕ → Product D
  stored uuid now p v seller = record {
    id = uuid;
    name = p.name;
    description = p.description;
    price = v.1;
    stock = v.2;
    category = p.category;
    status = v.0;
    seller_id = seller;
    created_at = now;
    updated_at = now;
  }

  unfoldable pub create_product : Decimals D → ProductParams D → Option ℕ → Query D (Product D)
  unfolding parse_status
  create_product dec p seller uuid now db = do
    v ← column_values dec p
    require (not (is_some (find_row product_id uuid db.products))) (constraint unique_violation)
    require (known_user seller db.users) (constraint foreign_key_violation)
    let row = stored uuid now p v seller
    ok (row, record db { products = row ∷ db.products })

  abbrev pub with_values : ℕ → ProductParams D → ProductStatus × D × ℕ → Product D → Product D
  with_values now p v row = record row {
    name = p.name;
    description = p.description;
    price = v.1;
    stock = v.2;
    category = p.category;
    status = v.0;
    updated_at = now;
  }

  -- The status is converted before a row is sought, and the rest is checked on the row.
  unfoldable pub update_product : Decimals D → ℕ → ProductParams D → Query D (Product D)
  unfolding parse_status
  update_product dec id p uuid now db = do
    status ← enum_value (parse_status p.status)
    row ← one (find_row product_id id db.products)
    v ← column_values dec p
    let f : Product D → Product D = with_values now p v
    ok (f row, record db { products = update_rows product_id id f db.products })

  abbrev pub shelved : ℕ → Product D → Product D
  shelved now row = record row { status = archived; updated_at = now }

  unfoldable pub archive_product : ℕ → Query D (Product D)
  archive_product id uuid now db = do
    row ← one (find_row product_id id db.products)
    ok (
      shelved now row,
      record db { products = update_rows product_id id (shelved now) db.products },
    )

  -- WHERE of ListProducts and CountProducts
  abbrev pub is_listed : Option String → Option String → Product D → Bool
  is_listed status category p = matches status (status_text p.status) && matches category p.category

  -- Whether `p` comes after `q`: `rank` decides between rows of one time.
  abbrev comes_after : (ℕ → ℕ) → Product D → Product D → Bool
  comes_after rank p q =
      ltb p.created_at q.created_at
      || ((p.created_at == q.created_at) && ltb (rank p.id) (rank q.id))

  insert_newest : (ℕ → ℕ) → Product D → List (Product D) → List (Product D)
  insert_newest rank p [] = p ∷ []
  insert_newest rank p (q ∷ qs) =
      if comes_after rank p q then q ∷ insert_newest rank p qs else p ∷ q ∷ qs

  -- ORDER BY created_at DESC
  unfoldable pub newest_first : (ℕ → ℕ) → List (Product D) → List (Product D)
  unfolding insert_newest
  newest_first rank [] = []
  newest_first rank (p ∷ ps) = insert_newest rank p (newest_first rank ps)

  abbrev not_negative : ℤ → Result D ℕ
  not_negative (pos n) = ok n
  not_negative (negsuc n) = err (constraint negative_limit)

  unfoldable pub list_products :
      (ℕ → ℕ → ℕ) → Option String → Option String → ℤ → ℤ → Query D (List (Product D))
  unfolding newest_first status_text
  list_products ties status category limit offset uuid now db = do
    n ← not_negative limit
    from ← not_negative offset
    ok (
      take n (
          drop from
            (newest_first (ties uuid) (filter_rows (is_listed status category) db.products))),
      db,
    )

  unfoldable pub count_products : Option String → Option String → Query D ℕ
  unfolding status_text
  count_products status category uuid now db =
      ok (length (filter_rows (is_listed status category) db.products), db)
