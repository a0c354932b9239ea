-- ===== src/Products/Changes.antt =====
-- What `Create`, `Update` and `Delete` of `ProductService` change, and what they leave alone.
use soa_hw.Base.{
  ◌∷◌, not, is_some, ℕ, String, true, false, ◌≡◌, ◌≢◌, refl, arith, Option, none, some, Bool-cases,
  inl, inr, ◌∙◌, ap, ◌==◌,
}
use soa_hw.Store.Session.Pool.{one_step}
use soa_hw.Base.Rows.{find_row, update_rows, find_row-update_rows}
use soa_hw.Store.Schema.{Db, Product, archived, ProductStatus, parse_status}
use soa_hw.Store.Env.{Env, Floats}
use soa_hw.Store.Session.{Session, ok}
use soa_hw.Store.Session.Laws.{Post, Post-bind, Post-seq, Post-pool, Post-or_no_rows, Post-raise_if}
use soa_hw.Store.Queries.{
  ProductParams, update_product, with_values, get_product_by_id, archive_product, create_product,
  shelved,
}
use soa_hw.Store.Queries.Checks.{product_id, >>=-passed, one, require, enum_value}
use soa_hw.Store.Queries.Catalog.{stored, column_values, known_user}
use soa_hw.Products.{
  UpdateProductInput, CreateProductInput, is_denied, get_by_id, check_owner, create, update, delete,
}
use soa_hw.Products.Access.{found_by_id}

==-refl : (a : ℕ) → (a == a) ≡ true
==-refl a = ground arith

==-other : (a b : ℕ) → b ≢ a → (a == b) ≡ false
==-other a b h = elim (Bool-cases (a == b)) [
  | inl same ↦ absurd (h (ground arith))
  | inr other ↦ other
]

module _ {D : Type 0} where
  -- After `Delete` or `Update` succeeds: the caller passed the check on the row `old`, only that row
  -- and its updated_at changed, and the row is the answer.
  abbrev pub Changes : ℕ → ℕ → String → Db D → Product D → Session D → Type 0
  Changes id caller role db p s =
      (old : Product D) × (find_row product_id id db.products ≡ some old)
      × (is_denied role caller old.seller_id ≡ false)
      × (find_row product_id id s.db.products ≡ some p)
      × (p.seller_id ≡ old.seller_id)
      × ((j : ℕ) → j ≢ id → find_row product_id j s.db.products ≡ find_row product_id j db.products)
      × (record s.db { products = db.products } ≡ db)

module _ {D : Type 0} (env : Env D) where
  found_back :
      (id uuid now : ℕ) (p : Product D) (db db' : Db D)
      → get_product_by_id id uuid now db ≡ ok (p, db')
      → (db' ≡ db) × (find_row product_id id db.products ≡ some p)
  unfolding get_product_by_id
  found_back id uuid now p db db' h = ground arith

  check_owner-passed :
      (id caller : ℕ) (role : String) (s : Session D)
      → Post
          (λ _ s'.
            (s'.db ≡ s.db)
            × ((old : Product D) × (find_row product_id id s.db.products ≡ some old)
                × (is_denied role caller old.seller_id ≡ false)))
          (check_owner env id caller role s)
  unfolding check_owner get_by_id
  check_owner-passed id caller role s =
      Post-bind (λ p s'. (s'.db ≡ s.db) × (find_row product_id id s.db.products ≡ some p)) _ _ _ s
        (Post-or_no_rows _ _ _ s
          (Post-pool env _ _ s λ s' uuid now p e. found_back id uuid now p s.db s'.db e))
        λ p s' h. Post-raise_if _ _ _ s' λ e. (h.0, (p, h.1, e))

  -- An UPDATE of the row `id` that keeps its id and its owner.
  rewritten :
      (id caller : ℕ) (role : String) (db : Db D) (old : Product D) (f : Product D → Product D)
      (s : Session D)
      → find_row product_id id db.products ≡ some old
      → is_denied role caller old.seller_id ≡ false
      → ((r : Product D) → product_id (f r) ≡ product_id r)
      → (f old).seller_id ≡ old.seller_id
      → s.db ≡ record db { products = update_rows product_id id f db.products }
      → Changes id caller role db (f old) s
  rewritten id caller role db old f s found passed keeps owner e =
      let rows : s.db.products ≡ update_rows product_id id f db.products = ap (λ d. d.products) e in
      (
        old,
        found,
        passed,
        rw rows (
            find_row-update_rows product_id id id f db.products keeps
            ∙ rw (==-refl id, found) refl),
        owner,
        λ j other. rw rows (
            find_row-update_rows product_id j id f db.products keeps
            ∙ rw (==-other id j other) refl),
        ap {A = Db D} (λ d. record d { products = db.products }) e,
      )

  archived_row :
      (id uuid now : ℕ) (db db' : Db D) (p old : Product D)
      → find_row product_id id db.products ≡ some old
      → archive_product id uuid now db ≡ ok (p, db')
      → (p ≡ shelved now old)
        × (db' ≡ record db { products = update_rows product_id id (shelved now) db.products })
  unfolding archive_product
  archived_row id uuid now db db' p old found h = let e = rw found at h in (cc (e), cc (e))

  deleted :
      (id caller : ℕ) (role : String) (db db1 : Db D) (uuid now : ℕ) (p : Product D)
      (s' : Session D)
      → (db1 ≡ db)
        × ((old : Product D) × (find_row product_id id db.products ≡ some old)
            × (is_denied role caller old.seller_id ≡ false))
      → archive_product id uuid now db1 ≡ ok (p, s'.db)
      → Changes id caller role db p s' × (p.status ≡ archived)
  deleted id caller role db db1 uuid now p s' (same, (old, found, passed)) e =
      let (row, tables) = archived_row id uuid now db s'.db p old found (rw same at e) in
      (
        rw row
            (rewritten id caller role db old (shelved now) s' found passed (λ r. refl) refl tables),
        rw row refl,
      )

  updated_row :
      (id uuid now : ℕ) (params : ProductParams D) (db db' : Db D) (p old : Product D)
      → find_row product_id id db.products ≡ some old
      → update_product env.decimal id params uuid now db ≡ ok (p, db')
      → (v : ProductStatus × D × ℕ) × (p ≡ with_values now params v old)
        × (db' ≡ record db {
          products = update_rows product_id id (with_values now params v) db.products;
        })
  unfolding update_product
  updated_row id uuid now params db db' p old found h =
      let (status, same, h1) = >>=-passed (enum_value (parse_status params.status)) _ h in
      let (r, e, h2) = >>=-passed (one (find_row product_id id db.products)) _ h1 in
      let (v, fit, h3) = >>=-passed (column_values env.decimal params) _ h2 in
      let which : r ≡ old = cc (e, found) in let h4 = rw which at h3 in (v, cc (h4), cc (h4))

  updated :
      (id caller : ℕ) (role : String) (params : ProductParams D) (db db1 : Db D) (uuid now : ℕ)
      (p : Product D) (s' : Session D)
      → (db1 ≡ db)
        × ((old : Product D) × (find_row product_id id db.products ≡ some old)
            × (is_denied role caller old.seller_id ≡ false))
      → update_product env.decimal id params uuid now db1 ≡ ok (p, s'.db)
      → Changes id caller role db p s'
  updated id caller role params db db1 uuid now p s' (same, (old, found, passed)) e =
      let (v, row, tables) = updated_row id uuid now params db s'.db p old found (rw same at e) in
      rw row (
        rewritten id caller role db old (with_values now params v) s' found passed (λ r. refl) refl
          tables)

  update-Changes :
      {F : Type 0} (floats : Floats D F) (id caller : ℕ) (role : String)
      (input : UpdateProductInput F) (s : Session D)
      → Post (Changes id caller role s.db) (update env floats id input caller role s)
  unfolding update
  update-Changes floats id caller role input s =
      Post-seq _ _ _ _ s (check_owner-passed id caller role s) λ _ s1 h.
        Post-pool env _ _ s1
          λ s' uuid now p e. updated id caller role _ s.db s1.db uuid now p s' h e

  -- What Create stores, GetByID finds, in a session in which the database does not fail.
  created_row :
      (params : ProductParams D) (seller : Option ℕ) (uuid now : ℕ) (db db' : Db D) (p : Product D)
      → create_product env.decimal params seller uuid now db ≡ ok (p, db')
      → (find_row product_id p.id db'.products ≡ some p)
        × (p.seller_id ≡ seller)
        × (find_row product_id p.id db.products ≡ none)
        × ((j : ℕ)
            → j ≢ p.id
            → find_row product_id j db'.products ≡ find_row product_id j db.products)
  unfolding create_product find_row
  created_row params seller uuid now db db' p h =
      let (v, fit, h1) = >>=-passed (column_values env.decimal params) _ h in
      let (_, fresh, h2) =
        >>=-passed (require (not (is_some (find_row product_id uuid db.products))) _) _ h1 in
      let (_, known, h3) = >>=-passed (require (known_user seller db.users) _) _ h2 in
      let row : p ≡ stored uuid now params v seller = cc (h3) in
      let tables : db' ≡ record db { products = stored uuid now params v seller ∷ db.products } =
        cc (h3) in
      let rows : db'.products ≡ stored uuid now params v seller ∷ db.products =
        ap (λ d. d.products) tables in
      rw (rows, row)
        (
          rw (==-refl uuid) refl,
          refl,
          ground (arith, fresh),
          λ j other. rw (==-other uuid j other) refl,
        )

  -- In a database that does not fail, when Create succeeds: GetByID answers with the row that
  -- Create answered, its owner is the seller of the input, its id belonged to no product before,
  -- and every other product is found as before.
  pub create-get :
      {F : Type 0} (floats : Floats D F) (input : CreateProductInput F) (s : Session D)
      → ((k : ℕ) → env.fault k ≡ false)
      → Post
          (λ p s'.
            (get_by_id env p.id s' ≡ (ok p, one_step env s'))
            × (p.seller_id ≡ some input.seller_id)
            × (find_row product_id p.id s.db.products ≡ none)
            × ((j : ℕ)
                → j ≢ p.id
                → find_row product_id j s'.db.products ≡ find_row product_id j s.db.products))
          (create env floats input s)
  unfolding create
  create-get floats input s good = Post-pool env _ _ s λ s' uuid now p e.
      let (here, owner, fresh, others) =
        created_row _ (some input.seller_id) uuid now s.db s'.db p e in
      (found_by_id env p.id p s' (good s'.step) here, owner, fresh, others)

  delete-Changes :
      (id caller : ℕ) (role : String) (s : Session D)
      → Post
          (λ p s'. Changes id caller role s.db p s' × (p.status ≡ archived))
          (delete env id caller role s)
  unfolding delete
  delete-Changes id caller role s =
      Post-seq _ _ _ _ s (check_owner-passed id caller role s) λ _ s1 h.
        Post-pool env _ _ s1 λ s' uuid now p e. deleted id caller role s.db s1.db uuid now p s' h e

  -- When Update or Delete succeeds: the product was there and the caller, if a SELLER, owned it;
  -- the answered row is found under its id and has the owner it had; every other product is found
  -- as before, and the other tables are as before. After Delete the row is ARCHIVED.
  pub writes-Changes :
      {F : Type 0} (floats : Floats D F) (id caller : ℕ) (role : String)
      (input : UpdateProductInput F) (s : Session D)
      → Post (Changes id caller role s.db) (update env floats id input caller role s)
        × Post
            (λ p s'. Changes id caller role s.db p s' × (p.status ≡ archived))
            (delete env id caller role s)
  writes-Changes floats id caller role input s =
      (update-Changes floats id caller role input s, delete-Changes id caller role s)
