-- ===== src/Store/Session/Frame.antt =====
-- Rules for what a method leaves as it was, whether it succeeds or fails.
use soa_hw.Base.{ℕ, Bool, true, false, ◌≡◌, refl, Bool-cases, inl, inr}
use soa_hw.Store.Schema.{Db}
use soa_hw.Store.Env.{Env}
use soa_hw.Store.Session.{
  Error, no_rows, tx_aborted, failed, constraint, app, Result, ok, err, Session, Action, Query,
  then_do, raise_if, ◌>>=◌, ◌>>◌, or_no_rows, no_rows_as, land, pool,
}

-- `R db db'`: what may happen to the tables.
module _ {D : Type 0} (R : Db D → Db D → Type 0) where
  abbrev pub Frames : {A : Type 0} → Session D → Result D A × Session D → Type 0
  Frames s r = R s.db r.1.db

  -- What a query may do.
  abbrev pub Stays : {A : Type 0} → Query D A → Type 0
  Stays {A} q =
      (uuid now : ℕ) (db : Db D) (a : A) (db' : Db D) → q uuid now db ≡ ok (a, db') → R db db'

  module _ (same : (db : Db D) → R db db) where
    Frames-land :
        {A : Type 0} (r : Result D (A × Db D)) (s : Session D)
        → ((a : A) (db' : Db D) → r ≡ ok (a, db') → R s.db db')
        → Frames s (land r s)
    Frames-land (ok (a, db')) s h = h a db' refl
    Frames-land (err e) s h = same s.db

    pub Frames-pool :
        {A : Type 0} (env : Env D) (q : Query D A) (s : Session D)
        → Stays q
        → Frames s (pool env q s)
    unfolding pool
    Frames-pool env q s h = elim (Bool-cases (env.fault s.step)) [
      | inl broken ↦ elim (Bool-cases (env.committed s.step)) [
        | inl carried ↦
            rw (broken, carried) (Frames-land _ _ (h (env.uuid s.step) (env.clock s.step) s.db))
        | inr gone ↦ rw (broken, gone) (same s.db)
      ]
      | inr good ↦ rw good (Frames-land _ _ (h (env.uuid s.step) (env.clock s.step) s.db))
    ]

    pub Frames-raise_if : (b : Bool) (e : Error D) (s : Session D) → Frames s (raise_if b e s)
    unfolding raise_if
    Frames-raise_if true e s = same s.db
    Frames-raise_if false e s = same s.db

    module _ (both : (a b c : Db D) → R a b → R b c → R a c) where
      Frames-then_do :
          {A B : Type 0} (s : Session D) (r : Result D A × Session D) (f : A → Action D B)
          → Frames s r
          → ((a : A) (s' : Session D) → Frames s' (f a s'))
          → Frames s (then_do r f)
      Frames-then_do s (ok a, s') f p h = both _ _ _ p (h a s')
      Frames-then_do s (err e, s') f p h = p

      pub Frames-bind :
          {A B : Type 0} (m : Action D A) (f : A → Action D B) (s : Session D)
          → Frames s (m s)
          → ((a : A) (s' : Session D) → Frames s' (f a s'))
          → Frames s ((m >>= f) s)
      unfolding ◌>>=◌
      Frames-bind m f s p h = Frames-then_do s (m s) f p h

      pub Frames-seq :
          {A B : Type 0} (m : Action D A) (k : Action D B) (s : Session D)
          → Frames s (m s)
          → ((s' : Session D) → Frames s' (k s'))
          → Frames s ((m >> k) s)
      unfolding ◌>>◌
      Frames-seq m k s p h = Frames-then_do s (m s) (λ _. k) p λ _ s'. h s'

  Frames-no_rows_as :
      {A : Type 0} (e : Error D) (s : Session D) (r : Result D A × Session D)
      → Frames s r
      → Frames s (no_rows_as e r)
  Frames-no_rows_as e s (ok a, s') p = p
  Frames-no_rows_as e s (err no_rows, s') p = p
  Frames-no_rows_as e s (err tx_aborted, s') p = p
  Frames-no_rows_as e s (err failed, s') p = p
  Frames-no_rows_as e s (err (constraint c), s') p = p
  Frames-no_rows_as e s (err (app a), s') p = p

  pub Frames-or_no_rows :
      {A : Type 0} (m : Action D A) (e : Error D) (s : Session D)
      → Frames s (m s)
      → Frames s (or_no_rows m e s)
  unfolding or_no_rows
  Frames-or_no_rows m e s p = Frames-no_rows_as e s (m s) p
