-- ===== src/Store/Session/Pool.antt =====
-- What one query on the pool comes to.
use soa_hw.Base.{refl, if_cases, suc, true, false, ◌≡◌}
use soa_hw.Store.Schema.{Db}
use soa_hw.Store.Env.{Env}
use soa_hw.Store.Session.{
  attempt, Result, or_no_rows, no_rows, Error, failed, ok, err, Session, Action, Query, pool, land,
  ◌>>=◌, ◌>>◌,
}

module _ {D : Type 0} (env : Env D) where
  abbrev pub one_step : Session D → Session D
  one_step s = record s { step = suc s.step }

  module _ {A : Type 0} (q : Query D A) (s : Session D) where
    -- A read that fails leaves the tables, whatever becomes of it.
    pub pool-fault :
        env.fault s.step ≡ true
        → (land (q (env.uuid s.step) (env.clock s.step) s.db) (one_step s)).1 ≡ one_step s
        → pool env q s ≡ (err failed, one_step s)
    unfolding pool
    pool-fault h same =
        rw (h, same)
          (if_cases (λ t. Path (Result D A × Session D) (err failed, t) (err failed, one_step s))
            (env.committed s.step) (λ _. refl) (λ _. refl))

    pub pool-ok :
        {a : A} {db : Db D}
        → env.fault s.step ≡ false
        → q (env.uuid s.step) (env.clock s.step) s.db ≡ ok (a, db)
        → pool env q s ≡ (ok a, record (one_step s) { db = db })
    unfolding pool
    pool-ok h e = rw (h, e)

    pub pool-err :
        {e : Error D}
        → env.fault s.step ≡ false
        → q (env.uuid s.step) (env.clock s.step) s.db ≡ err e
        → pool env q s ≡ (err e, one_step s)
    unfolding pool
    pool-err h e = rw (h, e)

-- How a sequence goes on after its first part.
module _ {D A B : Type 0} (m : Action D A) (s : Session D) where
  pub >>=-ok :
      (f : A → Action D B) {a : A} {s' : Session D} → m s ≡ (ok a, s') → (m >>= f) s ≡ f a s'
  unfolding ◌>>=◌
  >>=-ok f h = rw h

  pub >>=-err :
      (f : A → Action D B) {e : Error D} {s' : Session D}
      → m s ≡ (err e, s')
      → (m >>= f) s ≡ (err e, s')
  unfolding ◌>>=◌
  >>=-err f h = rw h

  pub >>-ok : (k : Action D B) {a : A} {s' : Session D} → m s ≡ (ok a, s') → (m >> k) s ≡ k s'
  unfolding ◌>>◌
  >>-ok k h = rw h

  pub >>-err :
      (k : Action D B) {e : Error D} {s' : Session D} → m s ≡ (err e, s') → (m >> k) s ≡ (err e, s')
  unfolding ◌>>◌
  >>-err k h = rw h

module _ {D A : Type 0} (m : Action D A) (s : Session D) where
  pub or_no_rows-ok :
      (e : Error D) {a : A} {s' : Session D} → m s ≡ (ok a, s') → or_no_rows m e s ≡ (ok a, s')
  unfolding or_no_rows
  or_no_rows-ok e h = rw h

  pub or_no_rows-none :
      (e : Error D) {s' : Session D} → m s ≡ (err no_rows, s') → or_no_rows m e s ≡ (err e, s')
  unfolding or_no_rows
  or_no_rows-none e h = rw h

  pub attempt_lem : {r : Result D A} {s' : Session D} → m s ≡ (r, s') → attempt m s ≡ (ok r, s')
  unfolding attempt
  attempt_lem h = rw h
