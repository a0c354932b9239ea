-- ===== src/App/Elsewhere/Services.antt =====
-- The services of accounts, products and promo codes work elsewhere.
use soa_hw.Base.{ℕ, String, Option, some, none}
use soa_hw.Store.Env.{Env, Floats}
use soa_hw.Store.Session.{Error, Result, ok, err, Session, Action, attempt, pure, raise, time_now}
use soa_hw.Auth.{
  Primitives, Settings, next_step, or_failed, or_unique, unique_as, issue_tokens, register, login,
  refresh_tokens,
}
use soa_hw.Products as Products
use soa_hw.Products.{
  CreateProductInput, UpdateProductInput, ListProductsInput, get_by_id, check_owner,
}
use soa_hw.Promos as Promos
use soa_hw.Promos.{CreatePromoInput}
use soa_hw.App.Elsewhere.{
  Elsewhere-refl, create_user-Stays, get_user_by_email-Stays, create_refresh_token-Stays,
  get_refresh_token-Stays, delete_refresh_token-Stays, get_product_by_id-Stays, list_products-Stays,
  count_products-Stays, create_product-Stays, update_product-Stays, archive_product-Stays,
  create_promo_code-Stays,
}
use soa_hw.App.Elsewhere.Rules.{
  Apart, Apart-bind, Apart-seq, Apart-pool, Apart-raise_if, Apart-or_no_rows,
}

module _ {D : Type 0} where
  next_step-Apart : (s : Session D) → Apart s (next_step s)
  unfolding next_step
  next_step-Apart s = Elsewhere-refl s.db

  or_failed-Apart : {A : Type 0} (o : Option A) (s : Session D) → Apart s (or_failed o s)
  unfolding or_failed pure raise
  or_failed-Apart none s = Elsewhere-refl s.db
  or_failed-Apart (some a) s = Elsewhere-refl s.db

  attempt-Apart :
      {A : Type 0} (m : Action D A) (s : Session D) → Apart s (m s) → Apart s (attempt m s)
  unfolding attempt
  attempt-Apart m s h = h

  unique_as-Apart :
      (prims : Primitives D) {A : Type 0} (e : Error D) (s : Session D) (r : Result D A × Session D)
      → Apart s r
      → Apart s (unique_as prims e r)
  unique_as-Apart prims e s (ok a, s') h = h
  unique_as-Apart prims e s (err e', s') h = h

module _ {D : Type 0} (env : Env D) (prims : Primitives D) where
  module _ (settings : Settings) where
    issue_tokens-Apart :
        (user : ℕ) (role : String) (s : Session D)
        → Apart s (issue_tokens env prims settings user role s)
    unfolding issue_tokens time_now pure
    issue_tokens-Apart user role s = Apart-bind _ _ s (Elsewhere-refl s.db) λ now s1.
        Apart-bind _ _ s1 (or_failed-Apart _ s1) λ access s2.
          Apart-bind _ _ s2 (next_step-Apart s2) λ k s3.
            Apart-seq _ _ s3 (Apart-pool env _ s3 (create_refresh_token-Stays user _ _))
              λ s4. Elsewhere-refl s4.db

    pub register-Apart :
        (email password role : String) (s : Session D)
        → Apart s (register env prims settings email password role s)
    unfolding register or_unique
    register-Apart email password role s = Apart-bind _ _ s (next_step-Apart s) λ salt s1.
        Apart-bind _ _ s1 (or_failed-Apart _ s1) λ hash s2.
          Apart-bind _ _ s2
            (unique_as-Apart prims _ s2 _ (Apart-pool env _ s2 (create_user-Stays email hash _)))
            λ u s3. issue_tokens-Apart _ _ s3

    pub login-Apart :
        (email password : String) (s : Session D)
        → Apart s (login env prims settings email password s)
    unfolding login
    login-Apart email password s =
        Apart-bind _ _ s
          (Apart-or_no_rows _ _ s (Apart-pool env _ s (get_user_by_email-Stays email)))
          λ u s1. Apart-seq _ _ s1 (Apart-raise_if _ _ s1) λ s2. issue_tokens-Apart _ _ s2

    pub refresh_tokens-Apart :
        (token : String) (s : Session D) → Apart s (refresh_tokens env prims settings token s)
    unfolding refresh_tokens
    refresh_tokens-Apart token s =
        Apart-bind _ _ s (Apart-or_no_rows _ _ s (Apart-pool env _ s (get_refresh_token-Stays _)))
          λ row s1.
            Apart-seq _ _ s1
              (attempt-Apart _ s1 (Apart-pool env _ s1 (delete_refresh_token-Stays _)))
              λ s2. issue_tokens-Apart _ _ s2

  pub create_promo-Apart :
      {F : Type 0} (floats : Floats D F) (input : CreatePromoInput F) (s : Session D)
      → Apart s (Promos.create env prims floats input s)
  unfolding Promos.create or_unique
  create_promo-Apart floats input s =
      unique_as-Apart prims _ s _ (Apart-pool env _ s (create_promo_code-Stays _ _))

module _ {D : Type 0} (env : Env D) where
  pub get_by_id-Apart : (id : ℕ) (s : Session D) → Apart s (get_by_id env id s)
  unfolding get_by_id
  get_by_id-Apart id s = Apart-or_no_rows _ _ s (Apart-pool env _ s (get_product_by_id-Stays id))

  check_owner-Apart :
      (id caller : ℕ) (role : String) (s : Session D) → Apart s (check_owner env id caller role s)
  unfolding check_owner
  check_owner-Apart id caller role s =
      Apart-bind _ _ s (get_by_id-Apart id s) λ p s1. Apart-raise_if _ _ s1

  pub delete-Apart :
      (id caller : ℕ) (role : String) (s : Session D)
      → Apart s (Products.delete env id caller role s)
  unfolding Products.delete
  delete-Apart id caller role s =
      Apart-seq _ _ s (check_owner-Apart id caller role s)
        λ s1. Apart-pool env _ s1 (archive_product-Stays id)

  pub list-Apart : (input : ListProductsInput) (s : Session D) → Apart s (Products.list env input s)
  unfolding Products.list pure
  list-Apart input s =
      Apart-bind _ _ s (Apart-pool env _ s (list_products-Stays _ _ _ _ _)) λ items s1.
        Apart-bind _ _ s1 (Apart-pool env _ s1 (count_products-Stays _ _))
          λ total s2. Elsewhere-refl s2.db

  module _ {F : Type 0} (floats : Floats D F) where
    pub create-Apart :
        (input : CreateProductInput F) (s : Session D)
        → Apart s (Products.create env floats input s)
    unfolding Products.create
    create-Apart input s = Apart-pool env _ s (create_product-Stays _ _ _)

    pub update-Apart :
        (id caller : ℕ) (role : String) (input : UpdateProductInput F) (s : Session D)
        → Apart s (Products.update env floats id input caller role s)
    unfolding Products.update
    update-Apart id caller role input s =
        Apart-seq _ _ s (check_owner-Apart id caller role s)
          λ s1. Apart-pool env _ s1 (update_product-Stays _ id _)
