-- ===== src/Store/Queries/Catalog/Newest.antt =====
-- ORDER BY created_at DESC of internal/db/queries/products.sql.
use mathlib.Core.List.{Perm}
use mathlib.Core.List.Perm
use soa_hw.Base.{ℕ, ◌≡◌, ◌≢◌, refl, ◌≤◌, arith, List, [], ◌∷◌, Bool-cases, inl, inr}
use soa_hw.Store.Schema.{Product}
use soa_hw.Store.Queries.Catalog.{newest_first, insert_newest, comes_after}

module _ {D : Type 0} where
  -- No product of the list is newer than the time.
  abbrev pub IsUpTo : ℕ → List (Product D) → Type 0
  IsUpTo time [] = Unit
  IsUpTo time (p ∷ ps) = (p.created_at ≤ time) × IsUpTo time ps

  -- No product is newer than one before it.
  abbrev pub IsNewestFirst : List (Product D) → Type 0
  IsNewestFirst [] = Unit
  IsNewestFirst (p ∷ ps) = IsUpTo p.created_at ps × IsNewestFirst ps

  IsUpTo-later :
      (early late : ℕ) (ps : List (Product D)) → early ≤ late → IsUpTo early ps → IsUpTo late ps
  IsUpTo-later early late [] h u = tt
  IsUpTo-later early late (p ∷ ps) h u = (omega (arith, u.0, h), IsUpTo-later early late ps h u.1)

  IsUpTo-insert :
      (rank : ℕ → ℕ) (time : ℕ) (p : Product D) (ps : List (Product D))
      → p.created_at ≤ time
      → IsUpTo time ps
      → IsUpTo time (insert_newest rank p ps)
  unfolding insert_newest
  IsUpTo-insert rank time p [] h u = (h, tt)
  IsUpTo-insert rank time p (q ∷ qs) h u = elim (Bool-cases (comes_after rank p q)) [
    | inl older ↦ rw older (u.0, IsUpTo-insert rank time p qs h u.1)
    | inr newer ↦ rw newer (h, u)
  ]

  IsNewestFirst-insert :
      (rank : ℕ → ℕ) (p : Product D) (ps : List (Product D))
      → IsNewestFirst ps
      → IsNewestFirst (insert_newest rank p ps)
  unfolding insert_newest
  IsNewestFirst-insert rank p [] s = (tt, tt)
  IsNewestFirst-insert rank p (q ∷ qs) s = elim (Bool-cases (comes_after rank p q)) [
    | inl older ↦ rw older (
      IsUpTo-insert rank q.created_at p qs (ground arith) s.0,
      IsNewestFirst-insert rank p qs s.1,
    )
    | inr newer ↦
        let below : q.created_at ≤ p.created_at = ground arith in
        rw newer ((below, IsUpTo-later q.created_at p.created_at qs below s.0), s)
  ]

  Perm-insert_newest :
      (rank : ℕ → ℕ) (p : Product D) (ps : List (Product D))
      → Perm (insert_newest rank p ps) (p ∷ ps)
  unfolding insert_newest
  Perm-insert_newest rank p [] = Perm.refl _
  Perm-insert_newest rank p (q ∷ qs) = elim (Bool-cases (comes_after rank p q)) [
    | inl older ↦
        rw older (Perm.trans (Perm.cons q (Perm-insert_newest rank p qs)) (Perm.swap p q qs))
    | inr newer ↦ rw newer (Perm.refl _)
  ]

  -- The sorted list, and that it has the rows of the table.
  pub IsNewestFirst-newest_first :
      (rank : ℕ → ℕ) (ps : List (Product D)) → IsNewestFirst (newest_first rank ps)
  unfolding newest_first
  IsNewestFirst-newest_first rank [] = tt
  IsNewestFirst-newest_first rank (p ∷ ps) =
      IsNewestFirst-insert rank p (newest_first rank ps) (IsNewestFirst-newest_first rank ps)

  pub Perm-newest_first : (rank : ℕ → ℕ) (ps : List (Product D)) → Perm (newest_first rank ps) ps
  unfolding newest_first
  Perm-newest_first rank [] = Perm.refl _
  Perm-newest_first rank (p ∷ ps) =
      Perm.trans (Perm-insert_newest rank p (newest_first rank ps))
        (Perm.cons p (Perm-newest_first rank ps))

  -- None of the products is of the time.
  abbrev pub IsOffTime : ℕ → List (Product D) → Type 0
  IsOffTime time [] = Unit
  IsOffTime time (p ∷ ps) = (time ≢ p.created_at) × IsOffTime time ps

  -- No two products are of one time.
  abbrev pub HaveOwnTimes : List (Product D) → Type 0
  HaveOwnTimes [] = Unit
  HaveOwnTimes (p ∷ ps) = IsOffTime p.created_at ps × HaveOwnTimes ps

  IsOffTime-insert :
      (rank : ℕ → ℕ) (time : ℕ) (p : Product D) (ps : List (Product D))
      → time ≢ p.created_at
      → IsOffTime time ps
      → IsOffTime time (insert_newest rank p ps)
  unfolding insert_newest
  IsOffTime-insert rank time p [] h o = (h, tt)
  IsOffTime-insert rank time p (q ∷ qs) h o = elim (Bool-cases (comes_after rank p q)) [
    | inl older ↦ rw older (o.0, IsOffTime-insert rank time p qs h o.1)
    | inr newer ↦ rw newer (h, o)
  ]

  IsOffTime-newest_first :
      (rank : ℕ → ℕ) (time : ℕ) (ps : List (Product D))
      → IsOffTime time ps
      → IsOffTime time (newest_first rank ps)
  unfolding newest_first
  IsOffTime-newest_first rank time [] o = tt
  IsOffTime-newest_first rank time (p ∷ ps) o =
      IsOffTime-insert rank time p _ o.0 (IsOffTime-newest_first rank time ps o.1)

  insert_newest-rank :
      (rank other : ℕ → ℕ) (p : Product D) (ps : List (Product D))
      → IsOffTime p.created_at ps
      → insert_newest rank p ps ≡ insert_newest other p ps
  unfolding insert_newest
  insert_newest-rank rank other p [] o = refl
  insert_newest-rank rank other p (q ∷ qs) o =
      let e = insert_newest-rank rank other p qs o.1 in
      let apart : p.created_at ≢ q.created_at = o.0 in
      let same : comes_after rank p q ≡ comes_after other p q = ground arith in rw (same, e) refl

  -- Where no two products are of one time, there is one order.
  pub newest_first-rank :
      (rank other : ℕ → ℕ) (ps : List (Product D))
      → HaveOwnTimes ps
      → newest_first rank ps ≡ newest_first other ps
  unfolding newest_first
  newest_first-rank rank other [] own = refl
  newest_first-rank rank other (p ∷ ps) own =
      rw (newest_first-rank rank other ps own.1)
        (insert_newest-rank rank other p _ (IsOffTime-newest_first other p.created_at ps own.0))
