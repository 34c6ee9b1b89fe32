-- ===== src/Workflow/Matrix.antt =====
-- kailab-control/internal/workflow/matrix.go: the combinations of a job's matrix. A combination is a
-- map; the maps of a strategy are taken to be distinct objects, as the decoder builds them.
pub mod Values
pub mod Product
pub mod Includes
pub mod Texts
pub mod Instances
mod Tests
use kai_server.Common.{
  ℕ, ◌+◌, Bool, true, false, ◌&&◌, ◌||◌, not, Option, none, some, List, [], ◌∷◌, ◌++◌, map, String,
  str_eq, if◌then◌else◌,
}
use kai_server.Common.Bytes.{codes, bytes_less}
use kai_server.Common.Maps.{lookup, put}

-- for x in xs, the results appended
unfoldable pub each {ℓ} : {A B : Type ℓ} → List A → (A → List B) → List B
each [] f = []
each (x ∷ xs) f = f x ++ each xs f

module _ {V : Type 0} where
  -- sort.Strings on the keys
  unfoldable pub insert_key : String × List V → List (String × List V) → List (String × List V)
  insert_key e [] = e ∷ []
  insert_key e (d ∷ ds) =
      if bytes_less (codes d.0) (codes e.0) then d ∷ insert_key e ds else e ∷ d ∷ ds

  unfoldable pub sort_keys : List (String × List V) → List (String × List V)
  unfolding insert_key
  sort_keys [] = []
  sort_keys (e ∷ es) = insert_key e (sort_keys es)

  -- the loop over the keys
  unfoldable pub expand_keys :
      List (String × List V) → List (List (String × V)) → List (List (String × V))
  unfolding each
  expand_keys [] result = result
  expand_keys ((key, values) ∷ keys) result =
      expand_keys keys (each result (λ combo. map (λ value. put key value combo) values))

  unfoldable pub generate_combinations : List (String × List V) → List (List (String × V))
  unfolding sort_keys expand_keys
  generate_combinations [] = [] ∷ []
  generate_combinations (e ∷ es) = expand_keys (sort_keys (e ∷ es)) ([] ∷ [])

  -- a loop that writes every entry of a map
  unfoldable pub put_all : List (String × V) → List (String × V) → List (String × V)
  put_all [] combo = combo
  put_all ((k, v) ∷ entries) combo = put_all entries (put k v combo)

  -- `same` is valuesEqual.
  module _ (same : V → V → Bool) where
    abbrev pub partial_pair : Option V → V → Bool
    partial_pair none v = true
    partial_pair (some w) v = same w v

    unfoldable pub partial_match : List (String × V) → List (String × V) → Bool
    partial_match combo [] = true
    partial_match combo ((k, v) ∷ include) =
        partial_pair (lookup k combo) v && partial_match combo include

    abbrev pub full_pair : Option V → V → Bool
    full_pair none v = false
    full_pair (some w) v = same w v

    unfoldable pub full_match : List (String × V) → List (String × V) → Bool
    full_match combo [] = true
    full_match combo ((k, v) ∷ exclude) = full_pair (lookup k combo) v && full_match combo exclude

    unfoldable pub any_match : List (String × V) → List (List (String × V)) → Bool
    unfolding partial_match
    any_match include [] = false
    any_match include (combo ∷ combos) = partial_match combo include || any_match include combos

    unfoldable pub merge_matching :
        List (String × V) → List (List (String × V)) → List (List (String × V))
    unfolding partial_match put_all
    merge_matching include [] = []
    merge_matching include (combo ∷ combos) =
        (if partial_match combo include then put_all include combo else combo)
        ∷ merge_matching include combos

    unfoldable pub apply_include :
        List (String × V) → List (List (String × V)) → List (List (String × V))
    unfolding any_match merge_matching
    apply_include include combos =
        if any_match include combos
        then merge_matching include combos
        else merge_matching include combos ++ (include ∷ [])

    unfoldable pub apply_includes :
        List (List (String × V)) → List (List (String × V)) → List (List (String × V))
    unfolding apply_include
    apply_includes [] combos = combos
    apply_includes (include ∷ includes) combos =
        apply_includes includes (apply_include include combos)

    unfoldable pub is_excluded : List (List (String × V)) → List (String × V) → Bool
    unfolding full_match
    is_excluded [] combo = false
    is_excluded (exclude ∷ excludes) combo = full_match combo exclude || is_excluded excludes combo

    unfoldable pub filter_excluded :
        List (List (String × V)) → List (List (String × V)) → List (List (String × V))
    unfolding is_excluded
    filter_excluded excludes [] = []
    filter_excluded excludes (combo ∷ combos) =
        if is_excluded excludes combo
        then filter_excluded excludes combos
        else combo ∷ filter_excluded excludes combos

-- len(m) == 0
abbrev pub is_empty {ℓ} : {A : Type ℓ} → List A → Bool
is_empty [] = true
is_empty (x ∷ xs) = false

pub record Matrix (V : Type 0) : Type 0 where
  pub include : List (List (String × V))
  pub exclude : List (List (String × V))
  pub values : List (String × List V)

pub record MatrixInstance (V : Type 0) : Type 0 where
  pub values : List (String × V)
  pub index : ℕ

module _ {V : Type 0} where
  unfoldable pub number_from : ℕ → List (List (String × V)) → List (MatrixInstance V)
  number_from i [] = []
  number_from i (combo ∷ combos) = record { values = combo; index = i } ∷ number_from (i + 1) combos

  -- A matrix of includes alone starts from no combination.
  unfoldable pub value_combinations : List (String × List V) → List (List (String × V))
  unfolding generate_combinations
  value_combinations [] = []
  value_combinations (e ∷ es) = generate_combinations (e ∷ es)

  -- Of the strategy, the matrix; the error of the source is always nil.
  unfoldable pub expand_values : (V → V → Bool) → Matrix V → List (MatrixInstance V)
  unfolding value_combinations apply_includes filter_excluded number_from
  expand_values same matrix = number_from 0 (
      filter_excluded same matrix.exclude
        (apply_includes same matrix.include (value_combinations matrix.values)))

  unfoldable pub expand_matrix : (V → V → Bool) → Option (Matrix V) → List (MatrixInstance V)
  unfolding expand_values
  expand_matrix same none = record { values = []; index = 0 } ∷ []
  expand_matrix same (some matrix) =
      if is_empty matrix.values && is_empty matrix.include
      then record { values = []; index = 0 } ∷ []
      else expand_values same matrix
