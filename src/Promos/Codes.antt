-- ===== src/Promos/Codes.antt =====
-- The promo codes that `Create` of `PromoService` stores.
use soa_hw.Base.{
  ℕ, String, not, is_some, ltb, true, ◌≡◌, ◌<◌, refl, ap, sym, arith, none, some, ◌∷◌, str_eq,
  eq_iff,
}
use soa_hw.Base.Rows.{find_row, first_row}
use soa_hw.Store.Schema.{Db, PromoCode, DiscountType, parse_discount}
use soa_hw.Store.Env.{Env, Decimals, Floats}
use soa_hw.Store.Session.{constraint, check_violation, unique_violation, Session, Result, ok}
use soa_hw.Store.Session.Laws.{Post, Post-pool}
use soa_hw.Store.Queries.{PromoParams, create_promo_code}
use soa_hw.Store.Queries.Promos.{issued_code, has_code}
use soa_hw.Store.Queries.Checks.{
  promo_id, >>=-passed, require, enum_value, varchar, positive_amount, amount, int4_from_0,
}
use soa_hw.Auth.{Primitives}
use soa_hw.Auth.Access.Register.{Post-or_unique}
use soa_hw.Promos.{CreatePromoInput, create}

module _ {D : Type 0} where
  -- A new code: nobody had it, it is found under its text, it has no uses, and the others stay.
  abbrev pub IsNew : String → Db D → PromoCode D → Session D → Type 0
  IsNew code db p s =
      (first_row (has_code code) db.promo_codes ≡ none)
      × (first_row (has_code code) s.db.promo_codes ≡ some p)
      × (p.current_uses ≡ 0)
      × (0 < p.max_uses)
      × (p.valid_from < p.valid_until)
      × (s.db ≡ record db { promo_codes = p ∷ db.promo_codes })

  ok_injective : {A : Type 0} {a b : A} {r : Result D A} → r ≡ ok b → r ≡ ok a → a ≡ b
  ok_injective h k = cc (h, k)

  -- The row that is put on top of the table, where the checks passed.
  inserted :
      (uuid : ℕ) (params : PromoParams D) (type : DiscountType) (value least : D) (uses : ℕ)
      (db : Db D) (s : Session D) (p : PromoCode D)
      → Path
          (PromoCode D × Db D)
          (
            issued_code uuid params type value least uses,
            record db {
              promo_codes = issued_code uuid params type value least uses ∷ db.promo_codes;
            },
          )
          (p, s.db)
      → require {D = D} (ltb 0 uses) (constraint check_violation) ≡ ok tt
      → require {D = D} (ltb params.valid_from params.valid_until) (constraint check_violation)
        ≡ ok tt
      → require {D = D}
          (not (is_some (first_row (has_code params.code) db.promo_codes)))
          (constraint unique_violation)
        ≡ ok tt
      → IsNew params.code db p s
  unfolding first_row
  inserted uuid params type value least uses db s p both some_uses ordered fresh =
      let row : p ≡ issued_code uuid params type value least uses = sym (ap (λ r. r.0) both) in
      let tables : s.db ≡ record db {
        promo_codes = issued_code uuid params type value least uses ∷ db.promo_codes;
      } =
        sym (ap (λ r. r.1) both) in
      let same : str_eq params.code params.code ≡ true =
        ground (arith, eq_iff params.code params.code) in
      let none_yet : first_row (has_code params.code) db.promo_codes ≡ none =
        ground (arith, fresh) in
      let positive : 0 < uses = ground (arith, some_uses) in
      let in_order : params.valid_from < params.valid_until = ground (arith, ordered) in
      rw row (
        none_yet,
        rw (ap (λ d. d.promo_codes) tables) (rw same refl),
        refl,
        positive,
        in_order,
        tables,
      )

  stored_code :
      (dec : Decimals D) (params : PromoParams D) (uuid now : ℕ) (db : Db D) (s : Session D)
      (p : PromoCode D)
      → create_promo_code dec params uuid now db ≡ ok (p, s.db)
      → IsNew params.code db p s
  unfolding create_promo_code first_row
  stored_code dec params uuid now db s p h =
      let (type, known, h0) = >>=-passed (enum_value (parse_discount params.discount_type)) _ h in
      let (_, short, h1) = >>=-passed (varchar 20 params.code) _ h0 in
      let (value, positive, h2) = >>=-passed (positive_amount dec params.discount_value) _ h1 in
      let (least, fits, h3) = >>=-passed (amount dec params.min_order_amount) _ h2 in
      let (uses, bounded, h4) = >>=-passed (int4_from_0 params.max_uses) _ h3 in
      let (_, some_uses, h5) = >>=-passed (require (ltb 0 uses) _) _ h4 in
      let (_, ordered, h6) =
        >>=-passed (require (ltb params.valid_from params.valid_until) _) _ h5 in
      let (_, fresh, h7) =
        >>=-passed (require (not (is_some (find_row promo_id uuid db.promo_codes))) _) _ h6 in
      let (_, other, h8) =
        >>=-passed (require (not (is_some (first_row (has_code params.code) db.promo_codes))) _) _
          h7 in
      inserted uuid params type value least uses db s p (ok_injective h8 refl) some_uses ordered
        other

module _ {D F : Type 0} (env : Env D) (prims : Primitives D) (floats : Floats D F) where
  -- When Create of PromoService succeeds: no promo code had the text before, the answered row is
  -- the one that is found under it, with no uses, at least one use allowed and an end after its
  -- start, and the only change of the tables is this row.
  pub create-IsNew :
      (input : CreatePromoInput F) (s : Session D)
      → Post (IsNew input.code s.db) (create env prims floats input s)
  unfolding create
  create-IsNew input s =
      Post-or_unique prims _ _ _ s
        (Post-pool env _ _ s λ s' uuid now p e. stored_code env.decimal _ uuid now s.db s' p e)
