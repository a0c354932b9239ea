-- ===== src/Store/Queries/Operations.antt =====
-- internal/db/queries/user_operations.sql
use soa_hw.Base.{
  ℕ, not, Bool, false, true, ◌&&◌, List, [], ◌∷◌, Option, none, some, ltb, ◌==◌, if◌then◌else◌,
  is_some,
}
use soa_hw.Base.Rows.{find_row, filter_rows}
use soa_hw.Store.Schema.{UserOperation, OperationType, create_order, update_order}
use soa_hw.Store.Session.{Query, ok, constraint, unique_violation, foreign_key_violation}
use soa_hw.Store.Queries.Checks.{user_id, operation_id, one, require, ◌>>=◌, ◌>>◌}

abbrev pub same_type : OperationType → OperationType → Bool
same_type create_order create_order = true
same_type update_order update_order = true
same_type _ _ = false

abbrev pub is_of : ℕ → OperationType → UserOperation → Bool
is_of uid type o = (o.user_id == uid) && same_type o.operation_type type

abbrev later : UserOperation → Option UserOperation → Option UserOperation
later o none = some o
later o (some p) = if ltb o.created_at p.created_at then some p else some o

-- ORDER BY created_at DESC LIMIT 1
pub latest : List UserOperation → Option UserOperation
latest [] = none
latest (o ∷ os) = later o (latest os)

module _ {D : Type 0} where
  unfoldable pub get_last_user_operation : ℕ → OperationType → Query D UserOperation
  unfolding latest
  get_last_user_operation uid type uuid now db = do
    o ← one (latest (filter_rows (is_of uid type) db.user_operations))
    ok (o, db)

  unfoldable pub create_user_operation : ℕ → OperationType → Query D UserOperation
  create_user_operation uid type uuid now db = do
    require (not (is_some (find_row operation_id uuid db.user_operations)))
        (constraint unique_violation)
    require (is_some (find_row user_id uid db.users)) (constraint foreign_key_violation)
    let o : UserOperation = record {
      id = uuid;
      user_id = uid;
      operation_type = type;
      created_at = now;
    }
    ok (o, record db { user_operations = o ∷ db.user_operations })
