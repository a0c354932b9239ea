-- ===== src/Orders/Promo.antt =====
-- What `Create` and `Update` do to the promo codes: internal/service/orders.go.
use soa_hw.Base.{
  ℕ, String, true, ◌≡◌, refl, ◌∙◌, some, none, List, arith, Option, is_some, str_eq, if_cases, ◌⊎◌,
  inl, inr,
}
use soa_hw.Base.Rows.{find_row, update_rows, first_row-find_row}
use soa_hw.Store.Schema.{Db, PromoCode}
use soa_hw.Store.Env.{Env}
use soa_hw.Store.Session.{Session, Action, Result, ok, err, no_rows}
use soa_hw.Store.Session.Laws.{
  Post, Post-pure, Post-bind, Post-seq, Post-tx, Post-raise_if, Post-or_no_rows, Post-time_now,
  Post-attempt-tx,
}
use soa_hw.Store.Queries.{
  get_promo_code_by_code, increment_promo_uses, decrement_promo_uses,
  get_promo_code_by_id_for_update, add_use, drop_use,
}
use soa_hw.Store.Queries.Checks.{promo_id}
use soa_hw.Orders.Service.{apply_promo, refund_promo, reprice, reprice_found, still_applies}

module _ {D : Type 0} where
  -- The promo codes after one use of `promo` is taken.
  abbrev pub claimed : Option ℕ → List (PromoCode D) → List (PromoCode D)
  claimed none ps = ps
  claimed (some id) ps = update_rows promo_id id add_use ps

  -- Two databases that differ in promo codes only, which have one use more.
  pub record Claims (promo : Option ℕ) (db db' : Db D) : Type 0 where
    pub products : db'.products ≡ db.products
    pub orders : db'.orders ≡ db.orders
    pub order_items : db'.order_items ≡ db.order_items
    pub promo_codes : db'.promo_codes ≡ claimed promo db.promo_codes

  increment_promo_uses-Claims :
      (id uuid now : ℕ) (db db' : Db D) {a : Unit {0}}
      → is_some (find_row promo_id id db.promo_codes) ≡ true
      → increment_promo_uses id uuid now db ≡ ok (a, db')
      → Claims (some id) db db'
  unfolding increment_promo_uses
  increment_promo_uses-Claims id uuid now db db' e h = ground arith

  get_promo_code_by_code-found :
      (code : String) (uuid now : ℕ) (db db' : Db D) (p : PromoCode D)
      → get_promo_code_by_code code uuid now db ≡ ok (p, db')
      → (db' ≡ db) × (is_some (find_row promo_id p.id db.promo_codes) ≡ true)
  unfolding get_promo_code_by_code
  get_promo_code_by_code-found code uuid now db db' p h =
      ground (arith, first_row-find_row promo_id (λ p. str_eq p.code code) db.promo_codes p)

  -- The promo codes after one use of `promo` is given back.
  abbrev pub refunded : Option ℕ → List (PromoCode D) → List (PromoCode D)
  refunded none ps = ps
  refunded (some id) ps = update_rows promo_id id drop_use ps

  -- The tables after the refund.
  pub record Refunds (promo : Option ℕ) (db db' : Db D) : Type 0 where
    pub products : db'.products ≡ db.products
    pub orders : db'.orders ≡ db.orders
    pub order_items : db'.order_items ≡ db.order_items
    pub promo_codes : db'.promo_codes ≡ refunded promo db.promo_codes

  decrement_promo_uses-Refunds :
      (id uuid now : ℕ) (db db' : Db D) {a : Unit {0}}
      → decrement_promo_uses id uuid now db ≡ ok (a, db')
      → Refunds (some id) db db'
  unfolding decrement_promo_uses
  decrement_promo_uses-Refunds id uuid now db db' h = ground arith

  never_no_rows :
      (id uuid now : ℕ) (db : Db D) → decrement_promo_uses id uuid now db ≡ err no_rows → ⊥
  unfolding decrement_promo_uses
  never_no_rows id uuid now db h = cc

  -- A code that is kept, or one whose use is given back.
  abbrev pub Reprices : Option ℕ → Option ℕ → Db D → Db D → Type 0
  Reprices promo promo' db db' =
      ((promo' ≡ promo) × Claims none db db') ⊎ ((promo' ≡ none) × Refunds promo db db')

  get_promo_code_by_id_for_update-same :
      (id uuid now : ℕ) (db db' : Db D) {p : PromoCode D}
      → get_promo_code_by_id_for_update id uuid now db ≡ ok (p, db')
      → db' ≡ db
  unfolding get_promo_code_by_id_for_update
  get_promo_code_by_id_for_update-same id uuid now db db' h = ground arith

  -- After the code was looked up: nothing has changed, or the transaction is aborted.
  abbrev Looked : ℕ → Db D → Result D (PromoCode D) → Session D → Type 0
  Looked id db (ok p) s = s.db ≡ db
  Looked id db (err e) s = (s.aborted ≡ true) ⊎ (s.db ≡ db)

  kept : (promo : Option ℕ) (db db' : Db D) → db' ≡ db → Reprices promo promo db db'
  kept promo db db' e = inl (refl, rw e (ground arith))

  module _ (env : Env D) where
    -- Where a code is applied, one use of it is taken, and the order will name it.
    pub apply_promo-Claims :
        (code : Option String) (total : D) (s : Session D)
        → Post (λ r s'. Claims r.promo_code_id s.db s'.db) (apply_promo env code total s)
    unfolding apply_promo
    apply_promo-Claims none total s = Post-pure _ _ s (ground arith)
    apply_promo-Claims (some code) total s =
        Post-bind
          (λ p s1. (s1.db ≡ s.db) × (is_some (find_row promo_id p.id s.db.promo_codes) ≡ true)) _ _
          _ s
          (Post-or_no_rows _ _ _ s (
            Post-tx env _ _ s
              λ s1 uuid now p _ h. get_promo_code_by_code-found code uuid now s.db s1.db p h))
          λ p s1 h1.
            Post-bind (λ _ s2. s2.db ≡ s.db) _ _ _ s1
              (Post-time_now env _ s1 λ s2 now e _. e ∙ h1.0)
              λ now s2 h2.
                Post-seq (λ _ s3. s3.db ≡ s.db) _ _ _ s2 (Post-raise_if _ _ _ s2 λ _. h2)
                  λ _ s3 h3.
                    Post-seq (λ _ s4. s4.db ≡ s.db) _ _ _ s3 (Post-raise_if _ _ _ s3 λ _. h3)
                      λ _ s4 h4.
                        Post-seq (λ _ s5. Claims (some p.id) s.db s5.db) _ _ _ s4
                          (Post-tx env _ _ s4 λ s5 uuid now _ _ h.
                            increment_promo_uses-Claims p.id uuid now s.db s5.db h1.1 (rw h4 at h))
                          λ _ s5 c. Post-pure _ _ s5 c

    -- A refund that fails aborts the transaction.
    pub refund_promo-Refunds :
        (promo : Option ℕ) (s : Session D)
        → Post (λ _ s'. (s'.aborted ≡ true) ⊎ Refunds promo s.db s'.db) (refund_promo env promo s)
    refund_promo-Refunds none s = Post-pure _ tt s (inr (ground arith))
    refund_promo-Refunds (some id) s =
        Post-seq (λ _ s'. (s'.aborted ≡ true) ⊎ Refunds (some id) s.db s'.db) _ _ _ s
          (Post-attempt-tx env _ _ s
            (λ s' uuid now a _ h. inr (decrement_promo_uses-Refunds id uuid now s.db s'.db h))
            (λ s' uuid now h _. absurd (never_no_rows id uuid now s.db h)) (λ s' e h _. inl h))
          λ _ s' h. Post-pure _ tt s' h

    reprice_found-Reprices :
        (id : ℕ) (total : D) (r : Result D (PromoCode D)) (db : Db D) (s : Session D)
        → Looked id db r s
        → Post
            (λ r s'. (s'.aborted ≡ true) ⊎ Reprices (some id) r.1 db s'.db)
            (reprice_found env id total r s)
    unfolding reprice_found
    reprice_found-Reprices id total (err e) db s (inl h) = Post-pure _ _ s (inl h)
    reprice_found-Reprices id total (err e) db s (inr h) =
        Post-pure _ _ s (inr (kept (some id) db s.db h))
    reprice_found-Reprices id total (ok p) db s h =
        Post-bind (λ _ s1. s1.db ≡ db) _ _ _ s (Post-time_now env _ s λ s1 now e _. e ∙ h)
          λ now s1 h1.
            if_cases
              (λ (m : Action D (D × Option ℕ)).
                Post (λ r s'. (s'.aborted ≡ true) ⊎ Reprices (some id) r.1 db s'.db) (m s1))
              (still_applies env now total p)
              (λ _. Post-pure _ _ s1 (inr (kept (some id) db s1.db h1)))
              λ _.
                Post-seq (λ _ s2. (s2.aborted ≡ true) ⊎ Refunds (some id) db s2.db) _ _ _ s1
                  (Post-attempt-tx env _ _ s1
                    (λ s2 uuid now a _ e.
                      inr (decrement_promo_uses-Refunds id uuid now db s2.db (rw h1 at e)))
                    (λ s2 uuid now e _. absurd (never_no_rows id uuid now s1.db e))
                    (λ s2 e a _. inl a))
                  λ _ s2 h2. elim h2 [
                    | inl a ↦ Post-pure _ _ s2 (inl a)
                    | inr f ↦ Post-pure _ _ s2 (inr (inr (refl, f)))
                  ]

    -- `Update` keeps the code as it is, or drops it and gives the use back.
    pub reprice-Reprices :
        (promo : Option ℕ) (total : D) (s : Session D)
        → Post
            (λ r s'. (s'.aborted ≡ true) ⊎ Reprices promo r.1 s.db s'.db)
            (reprice env promo total s)
    unfolding reprice
    reprice-Reprices none total s = Post-pure _ _ s (inr (inl (refl, ground arith)))
    reprice-Reprices (some id) total s =
        Post-bind (Looked id s.db) _ _ _ s
          (Post-attempt-tx env _ _ s
            (λ s' uuid now p _ h. get_promo_code_by_id_for_update-same id uuid now s.db s'.db h)
            (λ s' uuid now h e. inr e) (λ s' e h _. inl h))
          λ r s1 h1. reprice_found-Reprices id total r s.db s1 h1
