-- ===== src/App/Elsewhere/Rules.antt =====
-- `Elsewhere` over the steps of a method.
use soa_hw.Base.{Bool}
use soa_hw.Store.Env.{Env}
use soa_hw.Store.Session.{
  Error, Result, Session, Action, Query, or_no_rows, raise_if, pool, ◌>>=◌, ◌>>◌,
}
use soa_hw.Store.Session.Frame.{
  Stays, Frames-pool, Frames-raise_if, Frames-bind, Frames-seq, Frames-or_no_rows,
}
use soa_hw.App.Elsewhere.{Elsewhere, Elsewhere-refl, Elsewhere-trans}

module _ {D : Type 0} where
  -- What a call did to the tables was elsewhere.
  abbrev pub Apart : {A : Type 0} → Session D → Result D A × Session D → Type 0
  Apart s r = Elsewhere s.db r.1.db

  pub Apart-bind :
      {A B : Type 0} (m : Action D A) (f : A → Action D B) (s : Session D)
      → Apart s (m s)
      → ((a : A) (s' : Session D) → Apart s' (f a s'))
      → Apart s ((m >>= f) s)
  Apart-bind = Frames-bind Elsewhere Elsewhere-refl Elsewhere-trans

  pub Apart-seq :
      {A B : Type 0} (m : Action D A) (k : Action D B) (s : Session D)
      → Apart s (m s)
      → ((s' : Session D) → Apart s' (k s'))
      → Apart s ((m >> k) s)
  Apart-seq = Frames-seq Elsewhere Elsewhere-refl Elsewhere-trans

  pub Apart-pool :
      {A : Type 0} (env : Env D) (q : Query D A) (s : Session D)
      → Stays Elsewhere q
      → Apart s (pool env q s)
  Apart-pool = Frames-pool Elsewhere Elsewhere-refl

  pub Apart-raise_if : (b : Bool) (e : Error D) (s : Session D) → Apart s (raise_if b e s)
  Apart-raise_if = Frames-raise_if Elsewhere Elsewhere-refl

  pub Apart-or_no_rows :
      {A : Type 0} (m : Action D A) (e : Error D) (s : Session D)
      → Apart s (m s)
      → Apart s (or_no_rows m e s)
  Apart-or_no_rows = Frames-or_no_rows Elsewhere
