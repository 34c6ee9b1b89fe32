-- ===== src/Merge/Files.antt =====
-- kai-core/merge/merge.go: mergeFile, mergeUnits, reconstructFile and MergeFiles. A Go map is a list
-- of entries with one entry to a key. A loop over a map takes the keys in an order that Go does not
-- fix: the order is an argument. The extractor, which parses by tree-sitter, is a parameter.
use kai_server.Common.{
  ◌+◌, Bool, true, false, ◌&&◌, ◌||◌, Option, none, some, List, [], ◌∷◌, ◌++◌, String, ltb, ◌==◌,
  if◌then◌else◌, Result, ok, err, ◌>>=◌,
}
use kai_server.Common.Bytes.{Bytes, bytes_eq}
use kai_server.Common.Maps.{lookup}
use kai_server.Merge.Types.{
  other, UnitKey, MergeUnit, ConflictKind, delete_vs_modify, modify_vs_delete, concurrent_create,
  Conflict, MergeResult, Units,
}
use kai_server.Merge.Units.{merge_unit}

pub data MergeError : Type 0 where
  -- extracting base, left and right units
  base_units left_units right_units : MergeError
  merging : String → MergeError → MergeError

abbrev pub file_key : String → UnitKey
file_key path = record { file = path; symbol_path = []; kind = other "" }

abbrev pub file_conflict : ConflictKind → String → String → Conflict
file_conflict kind path text = record {
  kind = kind;
  unit_key = file_key path;
  message = text ∷ [];
  base = none;
  left = none;
  right = none;
  left_diff = [];
  right_diff = [];
}

-- the content (nil for none), the conflicts, and the error
abbrev pub FileMerge : Type 0
FileMerge = Result MergeError (Option Bytes × List Conflict)

-- mergeCreated
unfoldable pub merge_created : String → Option Bytes → Option Bytes → FileMerge
merge_created path (some left) none = ok (some left, [])
merge_created path none (some right) = ok (some right, [])
merge_created path (some left) (some right) =
    if bytes_eq left right
    then ok (some left, [])
    else ok (
      none,
      file_conflict concurrent_create path "File created on both sides with different content" ∷ [],
    )
merge_created path none none = ok (none, [])

-- ui sorts before uj
unfoldable pub unit_less : MergeUnit → MergeUnit → Bool
unit_less u v =
    ltb u.start_line v.start_line
    || (u.start_line == v.start_line && ltb u.start_column v.start_column)

-- sort.Slice by position. Units at one position may come in any order; here they keep theirs.
unfoldable pub insert_unit : MergeUnit → List MergeUnit → List MergeUnit
unfolding unit_less
insert_unit u [] = u ∷ []
insert_unit u (v ∷ vs) = if unit_less v u then v ∷ insert_unit u vs else u ∷ v ∷ vs

unfoldable pub sort_units : List MergeUnit → List MergeUnit
unfolding insert_unit
sort_units [] = []
sort_units (u ∷ us) = insert_unit u (sort_units us)

-- the contents with blank lines between them
unfoldable pub join_units : List MergeUnit → Bytes
join_units [] = []
join_units (u ∷ []) = u.content
join_units (u ∷ v ∷ us) = u.content ++ (b'\n' ∷ b'\n' ∷ join_units (v ∷ us))

unfoldable pub reconstruct_file : List MergeUnit → Bytes
unfolding sort_units join_units
reconstruct_file merged = join_units (sort_units merged) ++ (b'\n' ∷ [])

-- the loop over the keys: the merged units and the conflicts so far
unfoldable pub merge_keys :
    Units
    → Units
    → Units
    → List String
    → List MergeUnit
    → List Conflict
    → List MergeUnit × List Conflict
merge_keys base left right [] units conflicts = (units, conflicts)
merge_keys base left right (key ∷ keys) units conflicts =
    let merged = merge_unit (lookup key base) (lookup key left) (lookup key right) in
    merge_keys base left right keys (elim merged.0 [ none ↦ units | some u ↦ units ++ (u ∷ []) ])
      (elim merged.1 [ none ↦ conflicts | some c ↦ conflicts ++ (c ∷ []) ])

-- A conflict anywhere leaves no content.
unfoldable pub finish_units : List MergeUnit × List Conflict → Option Bytes × List Conflict
unfolding reconstruct_file
finish_units (units, []) = (some (reconstruct_file units), [])
finish_units (units, c ∷ cs) = (none, c ∷ cs)

abbrev pub or_error : Option Units → MergeError → Result MergeError Units
or_error none e = err e
or_error (some units) e = ok units

-- what MergeFiles adds to its result for one path
unfoldable pub add_file : String → Option Bytes × List Conflict → MergeResult → MergeResult
add_file path (merged, conflicts) r =
    let r' = record r {
      success = elim conflicts [ [] ↦ r.success | c ∷ cs ↦ false ];
      conflicts = r.conflicts ++ conflicts;
    } in
    elim merged [
      | none ↦ r'
      | some bytes ↦ record r' {
        files = r'.files ++ ((path, bytes) ∷ []);
        stats = record r'.stats { files_modified = r'.stats.files_modified + 1 };
      }
    ]

abbrev pub at_path : String → FileMerge → FileMerge
at_path path (err e) = err (merging path e)
at_path path m = m

abbrev pub no_result : MergeResult
no_result = record {
  success = true;
  files = [];
  conflicts = [];
  stats = record {
    units_total = 0;
    units_auto_merged = 0;
    units_conflicted = 0;
    files_modified = 0;
  };
}

-- `extract` is ExtractUnits, `none` for an error; `order` is the order of the loop over allKeys.
module _ (extract : String → Bytes → String → Option Units)
    (order : Units → Units → Units → List String) where
  unfoldable pub merge_units : String → Bytes → Bytes → Bytes → String → FileMerge
  unfolding merge_keys finish_units
  merge_units path base left right lang = do
    base_units' ← or_error (extract path base lang) base_units
    left_units' ← or_error (extract path left lang) left_units
    right_units' ← or_error (extract path right lang) right_units
    ok (
        finish_units (
          merge_keys base_units' left_units' right_units'
            (order base_units' left_units' right_units') [] []))

  -- mergeFile on a file that the base has
  unfoldable pub merge_existing : String → Bytes → Option Bytes → Option Bytes → String → FileMerge
  merge_existing path base none none lang = ok (none, [])
  merge_existing path base none (some right) lang =
      if bytes_eq base right
      then ok (none, [])
      else ok (
        none,
        file_conflict delete_vs_modify path "File deleted on left but modified on right" ∷ [],
      )
  merge_existing path base (some left) none lang =
      if bytes_eq base left
      then ok (none, [])
      else ok (
        none,
        file_conflict modify_vs_delete path "File modified on left but deleted on right" ∷ [],
      )
  merge_existing path base (some left) (some right) lang =
      if bytes_eq left right
      then ok (some left, [])
      else if bytes_eq base left
      then ok (some right, [])
      else if bytes_eq base right
      then ok (some left, [])
      else merge_units path base left right lang

  unfoldable pub merge_file :
      String → Option Bytes → Option Bytes → Option Bytes → String → FileMerge
  unfolding merge_created merge_existing
  merge_file path none left right lang = merge_created path left right
  merge_file path (some base) left right lang = merge_existing path base left right lang

  -- the loop of MergeFiles over allPaths, in any order
  unfoldable pub merge_paths :
      List String
      → List (String × Bytes)
      → List (String × Bytes)
      → List (String × Bytes)
      → String
      → MergeResult
      → Result MergeError MergeResult
  unfolding add_file
  merge_paths [] base left right lang r = ok r
  merge_paths (path ∷ paths) base left right lang r = do
    merged ←
        at_path path
          (merge_file path (lookup path base) (lookup path left) (lookup path right) lang)
    merge_paths paths base left right lang (add_file path merged r)

  unfoldable pub merge_files :
      List String
      → List (String × Bytes)
      → List (String × Bytes)
      → List (String × Bytes)
      → String
      → Result MergeError MergeResult
  unfolding merge_paths
  merge_files paths base left right lang = merge_paths paths base left right lang no_result
