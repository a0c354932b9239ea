-- ===== src/Store/Session/Laws.antt =====
-- Rules for what holds when an action succeeds, and the rollback of a transaction.
use soa_hw.Base.{ℕ, Bool, true, false, ◌≡◌, ◌≢◌, refl, suc, if_cases}
use soa_hw.Store.Schema.{Db}
use soa_hw.Store.Env.{Env}
use soa_hw.Store.Session.{
  Error, no_rows, tx_aborted, failed, constraint, app, Result, ok, err, Session, Action, Query,
  then_do, raise_if, attempt, ◌>>=◌, ◌>>◌, pure, raise, or_no_rows, time_now, no_rows_as, land,
  mark, commit, exec, pool, tx, in_tx,
}

module _ {D : Type 0} where
  -- `Q` holds of the result and of the session after it, if there is a result.
  unfoldable pub Post : {A : Type 0} → (A → Session D → Type 0) → Result D A × Session D → Type 0
  Post Q (ok a, s) = Q a s
  Post Q (err e, s) = Unit

  pub Post-pure :
      {A : Type 0} (Q : A → Session D → Type 0) (a : A) (s : Session D) → Q a s → Post Q (pure a s)
  unfolding Post pure
  Post-pure Q a s h = h

  pub Post-raise :
      {A : Type 0} (Q : A → Session D → Type 0) (e : Error D) (s : Session D) → Post Q (raise e s)
  unfolding Post raise
  Post-raise Q e s = tt

  Post-then_do :
      {A B : Type 0} (P : A → Session D → Type 0) (Q : B → Session D → Type 0)
      (r : Result D A × Session D) (f : A → Action D B)
      → Post P r
      → ((a : A) (s : Session D) → P a s → Post Q (f a s))
      → Post Q (then_do r f)
  unfolding Post
  Post-then_do P Q (ok a, s) f p h = h a s p
  Post-then_do P Q (err e, s) f p h = tt

  pub Post-map :
      {A : Type 0} (P Q : A → Session D → Type 0) (r : Result D A × Session D)
      → Post P r
      → ((a : A) (s : Session D) → P a s → Q a s)
      → Post Q r
  unfolding Post
  Post-map P Q (ok a, s) p h = h a s p
  Post-map P Q (err e, s) p h = tt

  pub Post-all :
      {A X : Type 0} (Q : X → A → Session D → Type 0) (r : Result D A × Session D)
      → ((x : X) → Post (Q x) r)
      → Post (λ a s. (x : X) → Q x a s) r
  unfolding Post
  Post-all Q (ok a, s) h = h
  Post-all Q (err e, s) h = tt

  pub Post-bind :
      {A B : Type 0} (P : A → Session D → Type 0) (Q : B → Session D → Type 0) (m : Action D A)
      (f : A → Action D B) (s : Session D)
      → Post P (m s)
      → ((a : A) (s' : Session D) → P a s' → Post Q (f a s'))
      → Post Q ((m >>= f) s)
  unfolding ◌>>=◌
  Post-bind P Q m f s p h = Post-then_do P Q (m s) f p h

  pub Post-seq :
      {A B : Type 0} (P : A → Session D → Type 0) (Q : B → Session D → Type 0) (m : Action D A)
      (k : Action D B) (s : Session D)
      → Post P (m s)
      → ((a : A) (s' : Session D) → P a s' → Post Q (k s'))
      → Post Q ((m >> k) s)
  unfolding ◌>>◌
  Post-seq P Q m k s p h = Post-then_do P Q (m s) (λ _. k) p h

  Post-no_rows_as :
      {A : Type 0} (Q : A → Session D → Type 0) (e : Error D) (r : Result D A × Session D)
      → Post Q r
      → Post Q (no_rows_as e r)
  unfolding Post
  Post-no_rows_as Q e (ok a, s) p = p
  Post-no_rows_as Q e (err no_rows, s) p = tt
  Post-no_rows_as Q e (err _, s) p = tt

  pub Post-or_no_rows :
      {A : Type 0} (Q : A → Session D → Type 0) (m : Action D A) (e : Error D) (s : Session D)
      → Post Q (m s)
      → Post Q (or_no_rows m e s)
  unfolding or_no_rows
  Post-or_no_rows Q m e s p = Post-no_rows_as Q e (m s) p

  pub Post-raise_if :
      (Q : Unit {0} → Session D → Type 0) (b : Bool) (e : Error D) (s : Session D)
      → (b ≡ false → Q tt s)
      → Post Q (raise_if b e s)
  unfolding Post raise_if
  Post-raise_if Q true e s h = tt
  Post-raise_if Q false e s h = h refl

  Post-mark-land :
      {A : Type 0} (Q : A → Session D → Type 0) (r : Result D (A × Db D)) (s : Session D)
      → ((s' : Session D) (a : A) → r ≡ ok (a, s'.db) → Q a s')
      → Post Q (mark (land r s))
  unfolding Post
  Post-mark-land Q (ok (a, db)) s h = h (record s { db = db; aborted = false }) a refl
  Post-mark-land Q (err e) s h = tt

  Post-land :
      {A : Type 0} (Q : A → Session D → Type 0) (r : Result D (A × Db D)) (s : Session D)
      → ((s' : Session D) (a : A) → r ≡ ok (a, s'.db) → Q a s')
      → Post Q (land r s)
  unfolding Post
  Post-land Q (ok (a, db)) s h = h (record s { db = db }) a refl
  Post-land Q (err e) s h = tt

  attempt_cases :
      {A : Type 0} (Q : Result D A → Session D → Type 0) (r : Result D (A × Db D)) (s : Session D)
      → ((s' : Session D) (a : A) → r ≡ ok (a, s'.db) → Q (ok a) s')
      → ((s' : Session D) → r ≡ err no_rows → s'.db ≡ s.db → Q (err no_rows) s')
      → ((s' : Session D) (e : Error D) → s'.aborted ≡ true → e ≢ no_rows → Q (err e) s')
      → Q (mark (land r s)).0 (mark (land r s)).1
  attempt_cases Q (ok (a, db)) s found missing broken =
      found (record s { db = db; aborted = false }) a refl
  attempt_cases Q (err no_rows) s found missing broken =
      missing (record s { aborted = false }) refl refl
  attempt_cases Q (err tx_aborted) s found missing broken = broken _ tx_aborted refl (λ h. cc)
  attempt_cases Q (err failed) s found missing broken = broken _ failed refl (λ h. cc)
  attempt_cases Q (err (constraint c)) s found missing broken =
      broken _ (constraint c) refl (λ h. cc)
  attempt_cases Q (err (app a)) s found missing broken = broken _ (app a) refl (λ h. cc)

  module _ (env : Env D) where
    -- A statement that succeeds ran in a transaction that was not aborted.
    pub Post-tx :
        {A : Type 0} (Q : A → Session D → Type 0) (q : Query D A) (s : Session D)
        → ((s' : Session D) (uuid now : ℕ) (a : A)
            → s.aborted ≡ false
            → q uuid now s.db ≡ ok (a, s'.db)
            → Q a s')
        → Post Q (tx env q s)
    unfolding Post tx exec
    Post-tx Q q s h =
        if_cases (Post Q) s.aborted (λ _. tt)
          λ e.
            if_cases (λ r. Post Q (mark r)) (env.fault s.step) (λ _. tt)
              λ _.
                Post-mark-land Q (q (env.uuid s.step) s.started s.db)
                  (record s { step = suc s.step }) (λ s' a. h s' (env.uuid s.step) s.started a e)

    -- The same where the code looks at the outcome: an error leaves the database, and an error
    -- other than an empty result leaves the transaction aborted.
    pub Post-attempt-tx :
        {A : Type 0} (Q : Result D A → Session D → Type 0) (q : Query D A) (s : Session D)
        → ((s' : Session D) (uuid now : ℕ) (a : A)
            → s.aborted ≡ false
            → q uuid now s.db ≡ ok (a, s'.db)
            → Q (ok a) s')
        → ((s' : Session D) (uuid now : ℕ)
            → q uuid now s.db ≡ err no_rows
            → s'.db ≡ s.db
            → Q (err no_rows) s')
        → ((s' : Session D) (e : Error D) → s'.aborted ≡ true → e ≢ no_rows → Q (err e) s')
        → Post Q (attempt (tx env q) s)
    unfolding Post tx exec attempt
    Post-attempt-tx {A} Q q s found missing broken =
        if_cases (λ (r : Result D A × Session D). Post Q (ok r.0, r.1)) s.aborted
          (λ e. broken s tx_aborted e (λ h. cc))
          λ e.
            if_cases (λ (r : Result D A × Session D). Post Q (ok (mark r).0, (mark r).1))
              (env.fault s.step) (λ _. broken _ failed refl (λ h. cc))
              λ _.
                attempt_cases Q (q (env.uuid s.step) s.started s.db)
                  (record s { step = suc s.step })
                  (λ s' a. found s' (env.uuid s.step) s.started a e)
                  (λ s'. missing s' (env.uuid s.step) s.started) broken

    -- Reading the clock writes nothing.
    pub Post-time_now :
        (Q : ℕ → Session D → Type 0) (s : Session D)
        → ((s' : Session D) (now : ℕ) → s'.db ≡ s.db → s'.aborted ≡ s.aborted → Q now s')
        → Post Q (time_now env s)
    unfolding Post time_now
    Post-time_now Q s h = h (record s { step = suc s.step }) (env.clock s.step) refl refl

    -- A query outside a transaction.
    pub Post-pool :
        {A : Type 0} (Q : A → Session D → Type 0) (q : Query D A) (s : Session D)
        → ((s' : Session D) (uuid now : ℕ) (a : A) → q uuid now s.db ≡ ok (a, s'.db) → Q a s')
        → Post Q (pool env q s)
    unfolding Post pool
    Post-pool Q q s h =
        if_cases (Post Q) (env.fault s.step) (λ _. tt)
          λ _.
            Post-land Q (q (env.uuid s.step) (env.clock s.step) s.db)
              (record s { step = suc s.step }) (λ s' a. h s' (env.uuid s.step) (env.clock s.step) a)

    commit_cases :
        {A : Type 0} (Q : A → Db D → Type 0) (before : Db D) (r : Result D A × Session D)
        → Post (λ a s. Q a s.db) r
        → Post (λ a s. Q a s.db) (commit env before r)
    unfolding Post
    commit_cases Q before (err e, s) h = tt
    commit_cases Q before (ok a, s) h =
        if_cases (Post (λ a s. Q a s.db)) s.aborted (λ _. tt)
          λ _. if_cases (Post (λ a s. Q a s.db)) (env.fault s.step) (λ _. tt) λ _. h

    -- A transaction that commits leaves what its body left.
    pub Post-in_tx :
        {A : Type 0} (Q : A → Db D → Type 0) (body : Action D A) (s : Session D)
        → ((s' : Session D) → s'.db ≡ s.db → Post (λ a t. Q a t.db) (body s'))
        → Post (λ a t. Q a t.db) (in_tx env body s)
    unfolding Post in_tx
    Post-in_tx Q body s h =
        if_cases (Post (λ a s. Q a s.db)) (env.fault s.step) (λ _. tt)
          λ _. commit_cases Q s.db (body s1) (h s1 refl)
      where
        s1 : Session D
        s1 = record s { step = suc s.step; aborted = false; started = env.clock s.step }
