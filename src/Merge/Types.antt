-- ===== src/Merge/Types.antt =====
-- kai-core/merge/types.go. A nil pointer or slice is `none`. Of a unit, what the merge reads is
-- kept: not its modifiers, its children and its syntax node. A message is the list of its pieces;
-- suggested resolutions are never set.
use kai_server.Common.{ℕ, Bool, Option, List, String}
use kai_server.Common.Bytes.{Bytes}

pub data UnitKind : Type 0 where
  unit_function unit_class unit_method unit_const unit_variable unit_import unit_export unit_type
        unit_module :
      UnitKind
  other : String → UnitKind

pub record UnitKey : Type 0 where
  pub file : String
  pub symbol_path : List String
  pub kind : UnitKind

pub record MergeUnit : Type 0 where
  pub key : UnitKey
  pub kind : UnitKind
  pub name : String
  pub signature : String
  pub body_hash : Bytes
  pub start_line : ℕ
  pub start_column : ℕ
  pub content : Bytes

-- The kinds that the merge raises.
pub data ConflictKind : Type 0 where
  api_signature_diverged const_value_conflict delete_vs_modify modify_vs_delete concurrent_create
        import_alias body_diverged :
      ConflictKind

pub record Conflict : Type 0 where
  pub kind : ConflictKind
  pub unit_key : UnitKey
  pub message : List String
  pub base : Option MergeUnit
  pub left : Option MergeUnit
  pub right : Option MergeUnit
  pub left_diff : List String
  pub right_diff : List String

pub record MergeStats : Type 0 where
  pub units_total : ℕ
  pub units_auto_merged : ℕ
  pub units_conflicted : ℕ
  pub files_modified : ℕ

pub record MergeResult : Type 0 where
  pub success : Bool
  pub files : List (String × Bytes)
  pub conflicts : List Conflict
  pub stats : MergeStats

-- What the extractor finds in one file: the units by their keys.
abbrev pub Units : Type 0
Units = List (String × MergeUnit)
