-- ===== src/Workflow/Matrix/Tests.antt =====
-- Runs of the matrix expansion, and its theorems at concrete inputs.
use kai_server.Common.{
  ◌≡◌, ◌≢◌, refl, Bool, true, some, List, [], ◌∷◌, String, str_eq, str_eq_iff, All,
}
use kai_server.Common.Bytes.{bytes_less}
use kai_server.Common.Maps.{lookup, put}
use kai_server.Workflow.Matrix.{
  Matrix, each, sort_keys, expand_keys, generate_combinations, put_all, any_match, merge_matching,
  partial_match, full_match, is_excluded, apply_include, apply_includes, value_combinations,
  filter_excluded, number_from, expand_values, expand_matrix,
}
use kai_server.Workflow.Matrix.Product.{product, generate_combinations-product}
use kai_server.Workflow.Matrix.Includes.{Holds}
use kai_server.Workflow.Matrix.Texts.{texts_equal, apply_includes-Holds_texts}
use kai_server.Workflow.Matrix.Instances.{IsExpansion, expand_values-IsExpansion}

abbrev versions : List (String × List String)
versions = ("os", "linux" ∷ "mac" ∷ []) ∷ ("go", "1.21" ∷ "1.22" ∷ []) ∷ []

combined :
    generate_combinations versions
    ≡ (("go", "1.21") ∷ ("os", "linux") ∷ [])
      ∷ (("go", "1.21") ∷ ("os", "mac") ∷ [])
      ∷ (("go", "1.22") ∷ ("os", "linux") ∷ [])
      ∷ (("go", "1.22") ∷ ("os", "mac") ∷ [])
      ∷ []
unfolding generate_combinations sort_keys expand_keys each put bytes_less
combined = refl

os_go : All {A = String × List String} (λ e. e.0 ≢ "os") (("go", "1.21" ∷ "1.22" ∷ []) ∷ [])
os_go = ((λ e. let same : str_eq "go" "os" ≡ true = (str_eq_iff "go" "os").1 e in absurd (cc)), tt)

generate_combinations-product_example :
    generate_combinations versions ≡ product (sort_keys versions)
generate_combinations-product_example = generate_combinations-product versions (os_go, (tt, tt))

abbrev includes : List (List (String × String))
includes = (("os", "mac") ∷ []) ∷ (("os", "windows") ∷ []) ∷ []

-- The other kinds of value do not occur.
abbrev same_text : String → String → Bool
same_text = texts_equal {N = Unit} {J = Unit} {F = Unit} (λ n. n) (λ a b. true) (λ v. [])

apply_includes-Holds_texts_example :
    All (λ i. Holds same_text i (apply_includes same_text includes [])) includes
apply_includes-Holds_texts_example =
    apply_includes-Holds_texts (λ n. n) (λ a b. true) (λ v. []) includes []
      ((tt, tt), ((tt, tt), tt))

abbrev small : Matrix String
small = record { include = includes; exclude = (("os", "mac") ∷ []) ∷ []; values = [] }

expanded :
    expand_matrix str_eq (some small) ≡ record { values = ("os", "windows") ∷ []; index = 0 } ∷ []
unfolding expand_matrix expand_values value_combinations apply_includes apply_include any_match
    merge_matching partial_match filter_excluded is_excluded full_match number_from lookup put_all
expanded = refl

expand_values-IsExpansion_example :
    IsExpansion str_eq small.exclude
      (apply_includes str_eq includes (value_combinations []))
      (expand_values str_eq small)
expand_values-IsExpansion_example = expand_values-IsExpansion str_eq small
