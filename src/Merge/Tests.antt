-- ===== src/Merge/Tests.antt =====
-- Runs of the three-way merge, and its theorems at concrete inputs.
use kai_server.Common.{
  ◌≡◌, ◌≢◌, refl, true, Option, none, some, List, [], ◌∷◌, String, str_eq, str_eq_iff, ok,
}
use kai_server.Common.Bytes.{Bytes, codes, bytes_eq}
use kai_server.Merge.Types.{unit_function, MergeUnit, Conflict, Units}
use kai_server.Merge.Units.{equivalent_units, merge_changed_unit, merge_unit}
use kai_server.Merge.Files.{merge_file}
use kai_server.Merge.UnitLaws.{Agree, merge_unit_comm}
use kai_server.Merge.FileLaws.{merge_file_clean}

-- a function of one line
abbrev function_unit : String → String → Bytes → MergeUnit
function_unit name signature body = record {
  key = record { file = "a.js"; symbol_path = name ∷ []; kind = unit_function };
  kind = unit_function;
  name = name;
  signature = signature;
  body_hash = body;
  start_line = 0;
  start_column = 0;
  content = body;
}

abbrev old : MergeUnit
old = function_unit "f" "f(a)" (codes "a")

abbrev renamed : MergeUnit
renamed = function_unit "f" "f(b)" (codes "b")

abbrev edited : MergeUnit
edited = function_unit "f" "f(a)" (codes "c")

-- An extractor that takes a whole file to be one function.
abbrev whole_file : String → Bytes → String → Option Units
whole_file path content lang = some (("f", function_unit "f" "f(a)" content) ∷ [])

abbrev one_key : Units → Units → Units → List String
one_key base left right = "f" ∷ []

both_edited :
    (c : Conflict) × (merge_unit
        (some old)
        (some (function_unit "f" "f(a)" (codes "d")))
        (some edited)
      ≡ (none, some c))
unfolding merge_unit equivalent_units bytes_eq merge_changed_unit
both_edited = (_, refl)

deleted : merge_unit (some old) none (some old) ≡ (none, none)
unfolding merge_unit equivalent_units bytes_eq merge_changed_unit
deleted = refl

merge_unit_comm_example :
    Agree
      (merge_unit (some old) (some renamed) (some edited))
      (merge_unit (some old) (some edited) (some renamed))
merge_unit_comm_example = merge_unit_comm (some old) (some renamed) (some edited)

new_signature : renamed.signature ≢ old.signature
new_signature e =
    let same : str_eq renamed.signature old.signature ≡ true = (str_eq_iff _ _).1 e in absurd (cc)

merge_file_clean_example :
    (merge_file whole_file one_key "a" none none (some (codes "x")) "js"
      ≡ ok (some (codes "x"), []))
    × (merge_file whole_file one_key "a" none (some (codes "x")) none "js"
        ≡ ok (some (codes "x"), []))
    × (merge_file whole_file one_key "a" none (some (codes "x")) (some (codes "x")) "js"
        ≡ ok (some (codes "x"), []))
merge_file_clean_example = merge_file_clean whole_file one_key "a" "js" none (some (codes "x"))

abbrev no_conflicts : List Conflict
no_conflicts = []

abbrev one_file : Bytes → List (String × Bytes)
one_file content = ("a", content) ∷ []
