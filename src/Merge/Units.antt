-- ===== src/Merge/Units.antt =====
-- kai-core/merge/merge.go, mergeUnit and what it calls, and EquivalentUnits of extract.go.
use kai_server.Common.{
  Bool, true, false, ◌&&◌, not, Option, none, some, List, [], ◌∷◌, String, str_eq, if◌then◌else◌,
}
use kai_server.Common.Bytes.{bytes_eq}
use kai_server.Merge.Types.{
  UnitKind, unit_function, unit_class, unit_method, unit_const, unit_variable, unit_import,
  MergeUnit, ConflictKind, api_signature_diverged, const_value_conflict, delete_vs_modify,
  modify_vs_delete, concurrent_create, import_alias, body_diverged, Conflict,
}

-- the merged unit and the conflict
abbrev pub Merged : Type 0
Merged = Option MergeUnit × Option Conflict

unfoldable pub equivalent_units : Option MergeUnit → Option MergeUnit → Bool
equivalent_units none none = true
equivalent_units none (some b) = false
equivalent_units (some a) none = false
equivalent_units (some a) (some b) = bytes_eq a.body_hash b.body_hash

unfoldable pub changed : Option MergeUnit → Option MergeUnit → Bool
unfolding equivalent_units
changed unit base = not (equivalent_units unit base)

-- a conflict over the three versions of a unit
abbrev pub both_changed : ConflictKind → MergeUnit → MergeUnit → MergeUnit → List String → Merged
both_changed kind base left right message = (
  none,
  some (record {
    kind = kind;
    unit_key = base.key;
    message = message;
    base = some base;
    left = some left;
    right = some right;
    left_diff = [];
    right_diff = [];
  }),
)

unfoldable pub merge_function_unit : MergeUnit → MergeUnit → MergeUnit → Merged
merge_function_unit base left right =
    let left_changed = not (str_eq left.signature base.signature) in
    let right_changed = not (str_eq right.signature base.signature) in
    if left_changed && (right_changed && not (str_eq left.signature right.signature))
    then (
      none,
      some (record {
        kind = api_signature_diverged;
        unit_key = base.key;
        message = "Function " ∷ base.name ∷ " signature changed on both sides" ∷ [];
        base = some base;
        left = some left;
        right = some right;
        left_diff = base.signature ∷ " -> " ∷ left.signature ∷ [];
        right_diff = base.signature ∷ " -> " ∷ right.signature ∷ [];
      }),
    )
    else if left_changed && not right_changed
    then (some left, none)
    else if right_changed && not left_changed
    then (some right, none)
    else if not (bytes_eq left.body_hash right.body_hash)
    then both_changed body_diverged base left right
        ("Function " ∷ base.name ∷ " body modified on both sides" ∷ [])
    else (some left, none)

unfoldable pub merge_class_unit : MergeUnit → MergeUnit → MergeUnit → Merged
merge_class_unit base left right =
    if not (bytes_eq left.body_hash right.body_hash)
    then both_changed body_diverged base left right
        ("Class " ∷ base.name ∷ " modified on both sides" ∷ [])
    else (some left, none)

unfoldable pub merge_const_unit : MergeUnit → MergeUnit → MergeUnit → Merged
merge_const_unit base left right =
    if not (bytes_eq left.body_hash right.body_hash)
    then both_changed const_value_conflict base left right
        ("Constant " ∷ base.name ∷ " value changed on both sides" ∷ [])
    else (some left, none)

unfoldable pub merge_import_unit : MergeUnit → MergeUnit → MergeUnit → Merged
merge_import_unit base left right =
    if not (bytes_eq left.body_hash right.body_hash)
    then both_changed import_alias base left right
        ("Import " ∷ base.name ∷ " changed on both sides" ∷ [])
    else (some left, none)

-- the default case of mergeChangedUnit
unfoldable pub merge_other_unit : MergeUnit → MergeUnit → MergeUnit → Merged
unfolding equivalent_units
merge_other_unit base left right =
    if not (equivalent_units (some left) (some right))
    then both_changed body_diverged base left right
        ("Unit " ∷ base.name ∷ " modified on both sides" ∷ [])
    else (some left, none)

unfoldable pub merge_by_kind : UnitKind → MergeUnit → MergeUnit → MergeUnit → Merged
unfolding merge_function_unit merge_class_unit merge_const_unit merge_import_unit merge_other_unit
merge_by_kind unit_function base left right = merge_function_unit base left right
merge_by_kind unit_method base left right = merge_function_unit base left right
merge_by_kind unit_class base left right = merge_class_unit base left right
merge_by_kind unit_const base left right = merge_const_unit base left right
merge_by_kind unit_variable base left right = merge_const_unit base left right
merge_by_kind unit_import base left right = merge_import_unit base left right
merge_by_kind _ base left right = merge_other_unit base left right

unfoldable pub merge_changed_unit : MergeUnit → MergeUnit → MergeUnit → Merged
unfolding merge_by_kind
merge_changed_unit base left right = merge_by_kind base.kind base left right

unfoldable pub merge_created_unit : Option MergeUnit → Option MergeUnit → Merged
unfolding equivalent_units
merge_created_unit (some left) none = (some left, none)
merge_created_unit none (some right) = (some right, none)
merge_created_unit (some left) (some right) =
    if equivalent_units (some left) (some right) then (some left, none) else (
      none,
      some (record {
        kind = concurrent_create;
        unit_key = left.key;
        message = "Unit " ∷ left.name ∷ " created on both sides with different content" ∷ [];
        base = none;
        left = some left;
        right = some right;
        left_diff = [];
        right_diff = [];
      }),
    )
merge_created_unit none none = (none, none)

-- one side is nil, and the other was modified
abbrev pub one_deleted :
    ConflictKind → MergeUnit → Option MergeUnit → Option MergeUnit → String → Merged
one_deleted kind base left right text = (
  none,
  some (record {
    kind = kind;
    unit_key = base.key;
    message = "Unit " ∷ base.name ∷ text ∷ [];
    base = some base;
    left = left;
    right = right;
    left_diff = [];
    right_diff = [];
  }),
)

-- mergeUnit behind its first test, on a unit that the base has
unfoldable pub merge_existing_unit : MergeUnit → Option MergeUnit → Option MergeUnit → Merged
unfolding equivalent_units changed
merge_existing_unit base none (some right) =
    if equivalent_units (some right) (some base)
    then (none, none)
    else one_deleted delete_vs_modify base none (some right)
        " deleted on left but modified on right"
merge_existing_unit base (some left) none =
    if equivalent_units (some left) (some base)
    then (none, none)
    else one_deleted modify_vs_delete base (some left) none " modified on left but deleted on right"
merge_existing_unit base none none = (none, none)
merge_existing_unit base (some left) (some right) =
    if equivalent_units (some base) (some right) && changed (some left) (some base)
    then (some left, none)
    else if equivalent_units (some base) (some left) && changed (some right) (some base)
    then (some right, none)
    else merge_changed_unit base left right

unfoldable pub merge_versions : Option MergeUnit → Option MergeUnit → Option MergeUnit → Merged
unfolding merge_created_unit merge_existing_unit
merge_versions none left right = merge_created_unit left right
merge_versions (some base) left right = merge_existing_unit base left right

unfoldable pub merge_unit : Option MergeUnit → Option MergeUnit → Option MergeUnit → Merged
unfolding equivalent_units merge_versions
merge_unit base left right =
    if equivalent_units base left && equivalent_units base right
    then (base, none)
    else merge_versions base left right
