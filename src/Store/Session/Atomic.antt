-- ===== src/Store/Session/Atomic.antt =====
-- Failures that leave the database as it was.
use soa_hw.Base.{Bool-cases, inl, inr, ◌⊎◌, ℕ, Bool, true, false, ◌≡◌, refl, suc, ◌∙◌, if_cases}
use soa_hw.Store.Schema.{Db}
use soa_hw.Store.Env.{Env}
use soa_hw.Store.Session.{
  Error, no_rows, Result, ok, err, Session, Action, Query, then_do, raise_if, attempt, ◌>>=◌, ◌>>◌,
  pure, raise, or_no_rows, no_rows_as, land, commit, pool, in_tx, time_now,
}
use soa_hw.Store.Session.Laws.{Post}

module _ {D : Type 0} where
  -- If the action ended in an error, the database is `db`, or else `Q` holds of it.
  unfoldable pub Undone : {A : Type 0} → (Db D → Type 0) → Db D → Result D A × Session D → Type 0
  Undone Q db (ok a, s) = Unit
  Undone Q db (err e, s) = (s.db ≡ db) ⊎ Q s.db

  -- The database is `db` afterwards, however the action ended.
  unfoldable pub Keeps : {A : Type 0} → Db D → Result D A × Session D → Type 0
  Keeps db r = r.1.db ≡ db

  pub Keeps-lem : {A : Type 0} (db : Db D) (r : Result D A × Session D) → Keeps db r → r.1.db ≡ db
  unfolding Keeps
  Keeps-lem db r h = h

  pub Keeps-intro : {A : Type 0} (db : Db D) (r : Result D A × Session D) → r.1.db ≡ db → Keeps db r
  unfolding Keeps
  Keeps-intro db r h = h

  pub Post-Keeps :
      {A : Type 0} (db : Db D) (r : Result D A × Session D) → Keeps db r → Post (λ _ s. s.db ≡ db) r
  unfolding Post Keeps
  Post-Keeps db (ok a, s) h = h
  Post-Keeps db (err e, s) h = tt

  pub Undone-Keeps :
      {A : Type 0} (Q : Db D → Type 0) (db : Db D) (r : Result D A × Session D)
      → Keeps db r
      → Undone Q db r
  unfolding Undone Keeps
  Undone-Keeps Q db (ok a, s) h = tt
  Undone-Keeps Q db (err e, s) h = inl h

  Undone-then_do :
      {A B : Type 0} (Q : Db D → Type 0) (P : A → Session D → Type 0) (db : Db D)
      (r : Result D A × Session D) (f : A → Action D B)
      → Keeps db r
      → Post P r
      → ((a : A) (s : Session D) → s.db ≡ db → P a s → Undone Q db (f a s))
      → Undone Q db (then_do r f)
  unfolding Undone Keeps Post
  Undone-then_do Q P db (ok a, s) f same p h = h a s same p
  Undone-then_do Q P db (err e, s) f same p h = inl same

  -- A step that writes nothing and ensures `P`, then one that undoes its failures.
  pub Undone-bind :
      {A B : Type 0} (Q : Db D → Type 0) (P : A → Session D → Type 0) (db : Db D) (m : Action D A)
      (f : A → Action D B) (s : Session D)
      → Keeps db (m s)
      → Post P (m s)
      → ((a : A) (s' : Session D) → s'.db ≡ db → P a s' → Undone Q db (f a s'))
      → Undone Q db ((m >>= f) s)
  unfolding ◌>>=◌
  Undone-bind Q P db m f s same p h = Undone-then_do Q P db (m s) f same p h

  pub Undone-seq :
      {A B : Type 0} (Q : Db D → Type 0) (db : Db D) (m : Action D A) (k : Action D B)
      (s : Session D)
      → Keeps db (m s)
      → ((s' : Session D) → s'.db ≡ db → Undone Q db (k s'))
      → Undone Q db ((m >> k) s)
  unfolding ◌>>◌
  Undone-seq Q db m k s same h =
      Undone-then_do Q _ db (m s) (λ _. k) same (Post-Keeps db (m s) same) λ _ s' e _. h s' e

  pub Undone-map :
      {A : Type 0} (P Q : Db D → Type 0) (db : Db D) (r : Result D A × Session D)
      → ((db' : Db D) → P db' → Q db')
      → Undone P db r
      → Undone Q db r
  unfolding Undone
  Undone-map P Q db (ok a, s) f h = tt
  Undone-map P Q db (err e, s) f (inl same) = inl same
  Undone-map P Q db (err e, s) f (inr h) = inr (f s.db h)

  -- What holds after success and after a failure holds in any case.
  pub after_all :
      {A : Type 0} (P Q : Db D → Type 0) (db : Db D) (r : Result D A × Session D)
      → Post (λ a t. P t.db) r
      → Undone Q db r
      → ((db' : Db D) → db' ≡ db → P db')
      → ((db' : Db D) → Q db' → P db')
      → P r.1.db
  unfolding Post Undone
  after_all P Q db (ok a, s) p u same carried = p
  after_all P Q db (err e, s) p (inl u) same carried = same s.db u
  after_all P Q db (err e, s) p (inr u) same carried = carried s.db u

  -- What `Post` says of a run that is known to succeed.
  Post-ok :
      {A : Type 0} (Q : A → Session D → Type 0) (r : Result D A × Session D) {a : A} {s : Session D}
      → Post Q r
      → r ≡ (ok a, s)
      → Q a s
  unfolding Post
  Post-ok Q r h e = rw e at h

  -- Steps that write nothing, whatever they answer.
  abbrev pub IsReadOnly : {A : Type 0} → Query D A → Type 0
  IsReadOnly {A} q = (uuid now : ℕ) (db db' : Db D) (a : A) → q uuid now db ≡ ok (a, db') → db' ≡ db

  land-same :
      {A : Type 0} (r : Result D (A × Db D)) (s : Session D)
      → ((a : A) (db' : Db D) → r ≡ ok (a, db') → db' ≡ s.db)
      → (land r s).1.db ≡ s.db
  land-same (ok (a, db)) s h = h a db refl
  land-same (err e) s h = refl

  Keeps-then_do :
      {A B : Type 0} (db : Db D) (r : Result D A × Session D) (f : A → Action D B)
      → Keeps db r
      → ((a : A) (s : Session D) → s.db ≡ db → Keeps db (f a s))
      → Keeps db (then_do r f)
  unfolding Keeps
  Keeps-then_do db (ok a, s) f same h = h a s same
  Keeps-then_do db (err e, s) f same h = same

  pub Keeps-bind :
      {A B : Type 0} (db : Db D) (m : Action D A) (f : A → Action D B) (s : Session D)
      → Keeps db (m s)
      → ((a : A) (s' : Session D) → s'.db ≡ db → Keeps db (f a s'))
      → Keeps db ((m >>= f) s)
  unfolding ◌>>=◌
  Keeps-bind db m f s same h = Keeps-then_do db (m s) f same h

  pub Keeps-seq :
      {A B : Type 0} (db : Db D) (m : Action D A) (k : Action D B) (s : Session D)
      → Keeps db (m s)
      → ((a : A) (s' : Session D) → s'.db ≡ db → Keeps db (k s'))
      → Keeps db ((m >> k) s)
  unfolding ◌>>◌
  Keeps-seq db m k s same h = Keeps-then_do db (m s) (λ _. k) same h

  Keeps-no_rows_as :
      {A : Type 0} (e : Error D) (db : Db D) (r : Result D A × Session D)
      → Keeps db r
      → Keeps db (no_rows_as e r)
  unfolding Keeps
  Keeps-no_rows_as e db (ok a, s) h = h
  Keeps-no_rows_as e db (err no_rows, s) h = h
  Keeps-no_rows_as e db (err _, s) h = h

  pub Keeps-or_no_rows :
      {A : Type 0} (db : Db D) (m : Action D A) (e : Error D) (s : Session D)
      → Keeps db (m s)
      → Keeps db (or_no_rows m e s)
  unfolding or_no_rows
  Keeps-or_no_rows db m e s h = Keeps-no_rows_as e db (m s) h

  pub Keeps-raise_if :
      (db : Db D) (b : Bool) (e : Error D) (s : Session D) → s.db ≡ db → Keeps db (raise_if b e s)
  unfolding Keeps raise_if
  Keeps-raise_if db true e s h = h
  Keeps-raise_if db false e s h = h

  pub Keeps-pure :
      {A : Type 0} (db : Db D) (a : A) (s : Session D) → s.db ≡ db → Keeps db (pure a s)
  unfolding Keeps pure
  Keeps-pure db a s h = h

  pub Keeps-raise :
      (A : Type 0) (db : Db D) (e : Error D) (s : Session D)
      → s.db ≡ db
      → Keeps {A = A} db (raise e s)
  unfolding Keeps raise
  Keeps-raise A db e s h = h

  pub Keeps-attempt :
      {A : Type 0} (db : Db D) (m : Action D A) (s : Session D)
      → Keeps db (m s)
      → Keeps db (attempt m s)
  unfolding Keeps attempt
  Keeps-attempt db m s h = h

  module _ (env : Env D) where
    pub Keeps-pool :
        {A : Type 0} (db : Db D) (q : Query D A) (s : Session D)
        → IsReadOnly q
        → s.db ≡ db
        → Keeps db (pool env q s)
    unfolding pool Keeps
    Keeps-pool {A} db q s read h =
        let s' = record s { step = suc s.step } in
        let same : (land (q (env.uuid s.step) (env.clock s.step) s.db) s').1.db ≡ db =
          land-same (q (env.uuid s.step) (env.clock s.step) s.db) s'
            (λ a db' e. read _ _ s.db db' a e)
          ∙ h in
        if_cases (λ (r : Result D A × Session D). r.1.db ≡ db) (env.fault s.step)
          (λ _. if_cases (λ (t : Session D). t.db ≡ db) (env.committed s.step) (λ _. same) (λ _. h))
          (λ _. same)

    pub Keeps-time_now : (db : Db D) (s : Session D) → s.db ≡ db → Keeps db (time_now env s)
    unfolding Keeps time_now
    Keeps-time_now db s h = h

    -- All statements of the body ran, the answer to COMMIT was lost, and it was carried out.
    pub record Whole {A : Type 0} (body : Action D A) (db db' : Db D) : Type 0 where
      pub begun : Session D
      pub ended : Session D
      pub result : A
      pub start : begun.db ≡ db
      pub ran : body begun ≡ (ok result, ended)
      pub running : ended.aborted ≡ false
      pub lost : env.fault ended.step ≡ true
      pub carried : env.committed ended.step ≡ true
      pub tables : db' ≡ ended.db

    -- Such tables are what the body ensures.
    pub Whole-Post :
        {A : Type 0} (R : Db D → Db D → Type 0) (body : Action D A) (db db' : Db D)
        → Whole body db db'
        → ((s : Session D) → s.db ≡ db → Post (λ _ s'. R s.db s'.db) (body s))
        → R db db'
    Whole-Post R body db db' w h = rw (← w.start, w.tables) (Post-ok _ _ (h w.begun w.start) w.ran)

    commit-Undone :
        {A : Type 0} (body : Action D A) (before : Db D) (s : Session D)
        (r : Result D A × Session D)
        → s.db ≡ before
        → body s ≡ r
        → Undone (Whole body before) before (commit env before r)
    unfolding Undone
    commit-Undone body before s (err e, t) same ran = inl refl
    commit-Undone {A} body before s (ok a, t) same ran = elim (Bool-cases t.aborted) [
      | inl stopped ↦ rw stopped (inl refl)
      | inr running ↦ elim (Bool-cases (env.fault t.step)) [
        | inr good ↦ rw (running, good) tt
        | inl lost ↦ elim (Bool-cases (env.committed t.step)) [
          | inr gone ↦ rw (running, lost, gone) (inl refl)
          | inl carried ↦
              rw (running, lost, carried)
                (inr (record {
                  begun = s;
                  ended = t;
                  result = a;
                  start = same;
                  ran = ran;
                  running = running;
                  lost = lost;
                  carried = carried;
                  tables = refl;
                }))
        ]
      ]
    ]

    -- A transaction that fails leaves the database as it was, or as its whole body left it.
    pub in_tx-rollback :
        {A : Type 0} (body : Action D A) (s : Session D)
        → Undone (Whole body s.db) s.db (in_tx env body s)
    unfolding in_tx Undone
    in_tx-rollback body s =
        if_cases (Undone (Whole body s.db) s.db) (env.fault s.step) (λ _. inl refl)
          λ _. commit-Undone body s.db s1 (body s1) refl refl
      where
        s1 : Session D
        s1 = record s { step = suc s.step; aborted = false; started = env.clock s.step }
