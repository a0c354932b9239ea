-- ===== src/Store/Session/Success.antt =====
-- Rules for what succeeds where the database does not fail.
use soa_hw.Base.{ℕ, Bool, false, ◌≡◌, refl}
use soa_hw.Store.Schema.{Db}
use soa_hw.Store.Env.{Env}
use soa_hw.Store.Session.Laws.{Post}
use soa_hw.Store.Session.{
  Error, Result, ok, err, Session, Action, Query, then_do, raise_if, attempt, ◌>>=◌, ◌>>◌, pure,
  or_no_rows, no_rows_as, exec, pool, tx, in_tx, commit,
}

module _ {D : Type 0} where
  -- There is a result, and `Q` holds of it and of the session after it.
  unfoldable pub Gives : {A : Type 0} → (A → Session D → Type 0) → Result D A × Session D → Type 0
  Gives Q (ok a, s) = Q a s
  Gives Q (err e, s) = ⊥

  pub Gives-pure :
      {A : Type 0} (Q : A → Session D → Type 0) (a : A) (s : Session D) → Q a s → Gives Q (pure a s)
  unfolding Gives pure
  Gives-pure Q a s h = h

  pub Gives-map :
      {A : Type 0} (P Q : A → Session D → Type 0) (r : Result D A × Session D)
      → Gives P r
      → ((a : A) (s : Session D) → P a s → Q a s)
      → Gives Q r
  unfolding Gives
  Gives-map P Q (ok a, s) p h = h a s p
  Gives-map P Q (err e, s) p h = p

  -- What holds if there is a result holds of it.
  pub Gives-Post :
      {A : Type 0} (P Q : A → Session D → Type 0) (r : Result D A × Session D)
      → Gives P r
      → Post Q r
      → Gives (λ a s. P a s × Q a s) r
  unfolding Gives Post
  Gives-Post P Q (ok a, s) p q = (p, q)
  Gives-Post P Q (err e, s) p q = p

  Gives-then_do :
      {A B : Type 0} (P : A → Session D → Type 0) (Q : B → Session D → Type 0)
      (r : Result D A × Session D) (f : A → Action D B)
      → Gives P r
      → ((a : A) (s : Session D) → P a s → Gives Q (f a s))
      → Gives Q (then_do r f)
  unfolding Gives
  Gives-then_do P Q (ok a, s) f p h = h a s p
  Gives-then_do P Q (err e, s) f p h = p

  pub Gives-bind :
      {A B : Type 0} (P : A → Session D → Type 0) (Q : B → Session D → Type 0) (m : Action D A)
      (f : A → Action D B) (s : Session D)
      → Gives P (m s)
      → ((a : A) (s' : Session D) → P a s' → Gives Q (f a s'))
      → Gives Q ((m >>= f) s)
  unfolding ◌>>=◌
  Gives-bind P Q m f s p h = Gives-then_do P Q (m s) f p h

  pub Gives-seq :
      {A B : Type 0} (P : A → Session D → Type 0) (Q : B → Session D → Type 0) (m : Action D A)
      (k : Action D B) (s : Session D)
      → Gives P (m s)
      → ((a : A) (s' : Session D) → P a s' → Gives Q (k s'))
      → Gives Q ((m >> k) s)
  unfolding ◌>>◌
  Gives-seq P Q m k s p h = Gives-then_do P Q (m s) (λ _. k) p h

  Gives-no_rows_as :
      {A : Type 0} (Q : A → Session D → Type 0) (e : Error D) (r : Result D A × Session D)
      → Gives Q r
      → Gives Q (no_rows_as e r)
  unfolding Gives
  Gives-no_rows_as Q e (ok a, s) p = p
  Gives-no_rows_as Q e (err _, s) p = elim p [ ]

  pub Gives-or_no_rows :
      {A : Type 0} (Q : A → Session D → Type 0) (m : Action D A) (e : Error D) (s : Session D)
      → Gives Q (m s)
      → Gives Q (or_no_rows m e s)
  unfolding or_no_rows
  Gives-or_no_rows Q m e s p = Gives-no_rows_as Q e (m s) p

  pub Gives-raise_if :
      (Q : Unit {0} → Session D → Type 0) (b : Bool) (e : Error D) (s : Session D)
      → b ≡ false
      → Q tt s
      → Gives Q (raise_if b e s)
  unfolding Gives raise_if
  Gives-raise_if Q b e s h q = rw h q

  Gives-found :
      {A : Type 0} (P : A → Session D → Type 0) (Q : Result D A → Session D → Type 0)
      (r : Result D A × Session D)
      → Gives P r
      → ((a : A) (s' : Session D) → P a s' → Q (ok a) s')
      → Gives Q (ok r.0, r.1)
  unfolding Gives
  Gives-found P Q (ok a, s) p h = h a s p
  Gives-found P Q (err e, s) p h = elim p [ ]

  pub Gives-attempt :
      {A : Type 0} (P : A → Session D → Type 0) (Q : Result D A → Session D → Type 0)
      (m : Action D A) (s : Session D)
      → Gives P (m s)
      → ((a : A) (s' : Session D) → P a s' → Q (ok a) s')
      → Gives Q (attempt m s)
  unfolding attempt
  Gives-attempt P Q m s p h = Gives-found P Q (m s) p h

  module _ (env : Env D) (good : (k : ℕ) → env.fault k ≡ false) where
    -- What a query has to do in a session for `Q`.
    abbrev pub Finds :
        {A : Type 0} → (A → Session D → Type 0) → Query D A → Session D → Bool → Type 0
    Finds {A} Q q s aborted =
        (uuid now : ℕ)
        → (a : A) × (db' : Db D) × (q uuid now s.db ≡ ok (a, db'))
          × ((s' : Session D) → s'.db ≡ db' → s'.aborted ≡ aborted → Q a s')

    pub Gives-pool :
        {A : Type 0} (Q : A → Session D → Type 0) (q : Query D A) (s : Session D)
        → Finds Q q s s.aborted
        → Gives Q (pool env q s)
    unfolding Gives pool
    Gives-pool Q q s h =
        let (a, db', e, k) = h (env.uuid s.step) (env.clock s.step) in
        rw (good s.step, e) (k _ refl refl)

    pub Gives-tx :
        {A : Type 0} (Q : A → Session D → Type 0) (q : Query D A) (s : Session D)
        → s.aborted ≡ false
        → Finds Q q s false
        → Gives Q (tx env q s)
    unfolding Gives tx exec
    Gives-tx Q q s run h =
        let (a, db', e, k) = h (env.uuid s.step) s.started in
        rw (run, good s.step, e) (k _ refl refl)

    Gives-commit :
        {A : Type 0} (Q : A → Db D → Type 0) (before : Db D) (r : Result D A × Session D)
        → Gives (λ a s. (s.aborted ≡ false) × Q a s.db) r
        → Gives (λ a s. Q a s.db) (commit env before r)
    unfolding Gives
    Gives-commit Q before (ok a, s) h = rw (h.0, good s.step) h.1
    Gives-commit Q before (err e, s) h = h

    pub Gives-in_tx :
        {A : Type 0} (Q : A → Db D → Type 0) (body : Action D A) (s : Session D)
        → ((s' : Session D)
            → s'.db ≡ s.db
            → s'.aborted ≡ false
            → Gives (λ a t. (t.aborted ≡ false) × Q a t.db) (body s'))
        → Gives (λ a t. Q a t.db) (in_tx env body s)
    unfolding in_tx
    Gives-in_tx Q body s h = rw (good s.step) (Gives-commit Q s.db (body _) (h _ refl refl))
