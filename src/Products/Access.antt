-- ===== src/Products/Access.antt =====
-- Who may change a product through `ProductService`, and what a change leaves alone.
use soa_hw.Base.{
  ℕ, String, true, false, ◌≡◌, ◌≢◌, refl, arith, Option, none, some, if◌then◌else◌, Bool-cases, inl,
  inr, ◌∙◌, ◌==◌,
}
use soa_hw.Store.Session.Pool.{one_step, pool-fault, pool-ok, >>=-ok, >>=-err, >>-err}
use soa_hw.Base.Rows.{find_row}
use soa_hw.ApiErr.{access_denied}
use soa_hw.Store.Schema.{Db, Product}
use soa_hw.Store.Env.{Env, Floats}
use soa_hw.Store.Session.{Session, Error, ok, err, failed, raise_if, or_no_rows}
use soa_hw.Store.Queries.{get_product_by_id}
use soa_hw.Store.Queries.Checks.{product_id}
use soa_hw.Orders.Types.{app_error}
use soa_hw.Products.{UpdateProductInput, is_denied, get_by_id, check_owner, update, delete}

not_owner :
    (caller : ℕ) (seller : Option ℕ)
    → seller ≢ some caller
    → is_denied "SELLER" caller seller ≡ true
not_owner caller none h = refl
not_owner caller (some x) h = elim (Bool-cases (x == caller)) [
  | inl same ↦ absurd (h (ground arith))
  | inr other ↦ rw other refl
]

module _ {D : Type 0} (env : Env D) where
  -- What the check answers, and the session after it.
  abbrev pub denial : Session D → Error D
  denial s = if env.fault s.step then failed else app_error access_denied

  found_product :
      (id : ℕ) (p : Product D) (uuid now : ℕ) (db : Db D)
      → find_row product_id id db.products ≡ some p
      → get_product_by_id id uuid now db ≡ ok (p, db)
  unfolding get_product_by_id
  found_product id p uuid now db h = rw h

  pub found_by_id :
      (id : ℕ) (p : Product D) (s : Session D)
      → env.fault s.step ≡ false
      → find_row product_id id s.db.products ≡ some p
      → get_by_id env id s ≡ (ok p, one_step env s)
  unfolding get_by_id or_no_rows
  found_by_id id p s good found =
      rw (pool-ok env (get_product_by_id id) s good (found_product id p _ _ s.db found))

  check_owner-denied :
      (id caller : ℕ) (role : String) (p : Product D) (s : Session D)
      → find_row product_id id s.db.products ≡ some p
      → is_denied role caller p.seller_id ≡ true
      → check_owner env id caller role s ≡ (err (denial s), one_step env s)
  unfolding check_owner get_by_id or_no_rows raise_if
  check_owner-denied id caller role p s found denied = elim (Bool-cases (env.fault s.step)) [
    | inl bad ↦ rw bad (
        >>=-err _ s _ (
          rw (
            pool-fault env (get_product_by_id id) s bad
              (rw (found_product id p _ _ s.db found) refl))))
    | inr good ↦ rw good (>>=-ok _ s _ (found_by_id id p s good found) ∙ rw denied)
  ]

  -- For a product in the table that the caller does not own: Update and Delete with the role
  -- SELLER end in ACCESS_DENIED, or in a database error where the read fails, and write nothing.
  pub seller_denied :
      {F : Type 0} (floats : Floats D F) (id caller : ℕ) (input : UpdateProductInput F)
      (p : Product D) (s : Session D)
      → find_row product_id id s.db.products ≡ some p
      → p.seller_id ≢ some caller
      → (update env floats id input caller "SELLER" s ≡ (err (denial s), one_step env s))
        × (delete env id caller "SELLER" s ≡ (err (denial s), one_step env s))
  unfolding update delete
  seller_denied floats id caller input p s found other =
      let denied : is_denied "SELLER" caller p.seller_id ≡ true =
        not_owner caller p.seller_id other in
      let stop = check_owner-denied id caller "SELLER" p s found denied in
      (>>-err _ s _ stop, >>-err _ s _ stop)
