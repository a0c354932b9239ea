-- ===== src/Store/Session/Errors.antt =====
-- Rules for the application errors that an action can end in.
use soa_hw.Base.{ℕ, Bool, true, false, ◌≡◌, refl, if_cases, suc}
use soa_hw.ApiErr
use soa_hw.ApiErr.{Details, Code, AppError, http_status_code}
use soa_hw.Store.Schema.{Db}
use soa_hw.Store.Env.{Env}
use soa_hw.Store.Session.{
  Error, no_rows, app, Result, ok, err, Session, Action, Query, then_do, raise_if, attempt, ◌>>=◌,
  ◌>>◌, pure, raise, or_no_rows, time_now, no_rows_as, land, mark, commit, exec, pool, tx, in_tx,
}

module _ {D : Type 0} where
  -- A query whose own errors are the database's.
  abbrev pub IsPlain : {A : Type 0} → Query D A → Type 0
  IsPlain {A} q = (uuid now : ℕ) (db : Db D) (a : AppError D) → q uuid now db ≡ err (app a) → ⊥

module _ {D : Type 0} (codes : Code → Bool) where
  -- An application error has one of the codes, and the status that belongs to it.
  abbrev pub IsAmong : Error D → Type 0
  IsAmong (app a) = (codes a.error_code ≡ true) × (a.http_status ≡ http_status_code a.error_code)
  IsAmong _ = Unit

  unfoldable pub Raises : {A : Type 0} → Result D A × Session D → Type 0
  Raises (ok a, s) = Unit
  Raises (err e, s) = IsAmong e

  -- The error of a call that raises such errors only.
  pub Raises-err :
      {A : Type 0} (r : Result D A × Session D) {e : Error D} → Raises r → r.0 ≡ err e → IsAmong e
  unfolding Raises
  Raises-err (ok a, s) h q = cc
  Raises-err (err e, s) h q = let same : e ≡ _ = cc in rw (same) at h

  pub Raises-pure : {A : Type 0} (a : A) (s : Session D) → Raises (pure a s)
  unfolding Raises pure
  Raises-pure a s = tt

  pub Raises-raise :
      (A : Type 0) (e : Error D) (s : Session D) → IsAmong e → Raises {A = A} (raise e s)
  unfolding Raises raise
  Raises-raise A e s h = h

  Raises-then_do :
      {A B : Type 0} (r : Result D A × Session D) (f : A → Action D B)
      → Raises r
      → ((a : A) (s : Session D) → Raises (f a s))
      → Raises (then_do r f)
  unfolding Raises
  Raises-then_do (ok a, s) f p h = h a s
  Raises-then_do (err e, s) f p h = p

  pub Raises-bind :
      {A B : Type 0} (m : Action D A) (f : A → Action D B) (s : Session D)
      → Raises (m s)
      → ((a : A) (s' : Session D) → Raises (f a s'))
      → Raises ((m >>= f) s)
  unfolding ◌>>=◌
  Raises-bind m f s p h = Raises-then_do (m s) f p h

  pub Raises-seq :
      {A B : Type 0} (m : Action D A) (k : Action D B) (s : Session D)
      → Raises (m s)
      → ((s' : Session D) → Raises (k s'))
      → Raises ((m >> k) s)
  unfolding ◌>>◌
  Raises-seq m k s p h = Raises-then_do (m s) (λ _. k) p λ _ s'. h s'

  Raises-no_rows_as :
      {A : Type 0} (e : Error D) (r : Result D A × Session D)
      → Raises r
      → IsAmong e
      → Raises (no_rows_as e r)
  unfolding Raises
  Raises-no_rows_as e (ok a, s) p h = p
  Raises-no_rows_as e (err no_rows, s) p h = h
  Raises-no_rows_as e (err _, s) p h = p

  pub Raises-or_no_rows :
      {A : Type 0} (m : Action D A) (e : Error D) (s : Session D)
      → Raises (m s)
      → IsAmong e
      → Raises (or_no_rows m e s)
  unfolding or_no_rows
  Raises-or_no_rows m e s p h = Raises-no_rows_as e (m s) p h

  pub Raises-raise_if :
      (b : Bool) (e : Error D) (s : Session D) → IsAmong e → Raises (raise_if b e s)
  unfolding Raises raise_if
  Raises-raise_if true e s h = h
  Raises-raise_if false e s h = tt

  pub Raises-attempt : {A : Type 0} (m : Action D A) (s : Session D) → Raises (attempt m s)
  unfolding Raises attempt
  Raises-attempt m s = tt

  Raises-land :
      {A : Type 0} (r : Result D (A × Db D)) (s : Session D)
      → ((a : AppError D) → r ≡ err (app a) → ⊥)
      → Raises (land r s)
  unfolding Raises
  Raises-land (ok a) s h = tt
  Raises-land (err (app a)) s h = absurd (h a refl)
  Raises-land (err _) s h = tt

  -- An outcome that is looked at.
  abbrev pub Among : {A : Type 0} → Result D A → Type 0
  Among (ok a) = Unit
  Among (err e) = IsAmong e

  Raises-attempted :
      {A B : Type 0} (r : Result D A × Session D) (f : Result D A → Action D B)
      → Raises r
      → ((o : Result D A) (s : Session D) → Among o → Raises (f o s))
      → Raises (f r.0 r.1)
  unfolding Raises
  Raises-attempted (ok a, s) f p h = h (ok a) s tt
  Raises-attempted (err e, s) f p h = h (err e) s p

  pub Raises-attempt_bind :
      {A B : Type 0} (m : Action D A) (f : Result D A → Action D B) (s : Session D)
      → Raises (m s)
      → ((o : Result D A) (s' : Session D) → Among o → Raises (f o s'))
      → Raises ((attempt m >>= f) s)
  unfolding ◌>>=◌ attempt
  Raises-attempt_bind m f s p h = Raises-attempted (m s) f p h

  Raises-mark : {A : Type 0} (r : Result D A × Session D) → Raises r → Raises (mark r)
  unfolding Raises
  Raises-mark (ok a, s) h = h
  Raises-mark (err e, s) h = h

  module _ (env : Env D) where
    Raises-exec :
        {A : Type 0} (now : ℕ) (q : Query D A) (s : Session D)
        → IsPlain q
        → Raises (exec env now q s)
    unfolding exec
    Raises-exec {A} now q s h =
        if_cases (λ (r : Result D A × Session D). Raises r) (env.fault s.step)
          (λ _. unfold Raises in tt) λ _. Raises-land _ _ (h (env.uuid s.step) now s.db)

    pub Raises-pool :
        {A : Type 0} (q : Query D A) (s : Session D) → IsPlain q → Raises (pool env q s)
    unfolding pool
    Raises-pool {A} q s h =
        if_cases (λ (r : Result D A × Session D). Raises r) (env.fault s.step)
          (λ _. unfold Raises in tt)
          λ _. Raises-land _ _ (h (env.uuid s.step) (env.clock s.step) s.db)

    pub Raises-tx : {A : Type 0} (q : Query D A) (s : Session D) → IsPlain q → Raises (tx env q s)
    unfolding tx Raises
    Raises-tx {A} q s h =
        if_cases (λ (r : Result D A × Session D). Raises r) s.aborted (λ _. tt)
          λ _. Raises-mark _ (Raises-exec s.started q s h)

    pub Raises-time_now : (s : Session D) → Raises (time_now env s)
    unfolding Raises time_now
    Raises-time_now s = tt

    Raises-commit :
        {A : Type 0} (before : Db D) (r : Result D A × Session D)
        → Raises r
        → Raises (commit env before r)
    unfolding Raises
    Raises-commit before (err e, s) h = h
    Raises-commit {A} before (ok a, s) h =
        if_cases (λ (r : Result D A × Session D). Raises r) s.aborted (λ _. tt)
          λ _.
            if_cases (λ (r : Result D A × Session D). Raises r) (env.fault s.step) (λ _. tt) λ _. tt

    pub Raises-in_tx :
        {A : Type 0} (body : Action D A) (s : Session D)
        → ((s' : Session D) → Raises (body s'))
        → Raises (in_tx env body s)
    unfolding Raises in_tx
    Raises-in_tx {A} body s h =
        if_cases (λ (r : Result D A × Session D). Raises r) (env.fault s.step) (λ _. tt)
          λ _. Raises-commit s.db (body s1) (h s1)
      where
        s1 : Session D
        s1 = record s { step = suc s.step; aborted = false; started = env.clock s.step }

-- apierr.New and apierr.NewWithDetails
module _ (D : Type 0) (codes : Code → Bool) where
  pub made : (c : Code) → codes c ≡ true → IsAmong {D = D} codes (app (ApiErr.new c))
  unfolding ApiErr.new
  made c h = (h, refl)

  pub made_with :
      (c : Code) (d : Details D)
      → codes c ≡ true
      → IsAmong codes (app (ApiErr.new_with_details c d))
  unfolding ApiErr.new_with_details
  made_with c d h = (h, refl)
