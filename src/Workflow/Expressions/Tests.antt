-- ===== src/Workflow/Expressions/Tests.antt =====
-- Runs of expressions, and the theorems at concrete inputs. A library that prints and reads nothing.
use kai_server.Common.Bytes.{lacks, codes, bytes_eq, has_prefix}
use kai_server.Workflow.Expressions.Interpolation.{cut_before, interpolate_from}
use kai_server.Workflow.Expressions.Context.{call_function}
use kai_server.Workflow.Expressions.Values.{format_from, replace_from}
use kai_server.Common.{
  ◌+◌, arith, ◌≡◌, refl, String, true, false, List, [], ◌∷◌, ◌++◌, Option, none, some, ltb, ◌==◌,
}
use kai_server.Workflow.Expressions.Values.{
  AnyValue, nothing, bool, text, no_fields, field, object, Library,
}
use kai_server.Workflow.Expressions.Context.{
  ExprContext, lookup_context, split_dot, text_at, field_at, result_at, deep_lookup_from,
  lookup_results,
}
use kai_server.Workflow.Expressions.Parser.{
  parse_or, eval_expr, skip_whitespace, span, parse_string, has_dot,
}
use kai_server.Workflow.Expressions.Parser.Hangs.{eval_expr-hangs}
use kai_server.Workflow.Expressions.Parser.Ends.{eval_expr-ends}
use kai_server.Workflow.Expressions.Parser.Literals.{escape, eval_expr-escape}
use kai_server.Workflow.Expressions.Interpolation.{interpolate}
use kai_server.Workflow.Expressions.Interpolation.Templates.{
  Part, template, filled, interpolate-template,
}

abbrev plain_library : Library
plain_library = record {
  to_lower = λ b. b;
  trim_space = λ b. b;
  print_int = λ n. (48 + n) ∷ [];
  print_float = λ n. [];
  marshal = λ v. [];
  unmarshal = λ b. nothing;
  scan_int = λ b. 7;
  scan_float = λ b. 0;
  of_int = λ n. n;
  float_zero = 0;
  float_less = ltb;
  is_zero_float = λ n. n == 0;
}

abbrev pushed : ExprContext
pushed = record {
  github =
      field (codes "event") (object (field (codes "tag") (text (codes "v1")) no_fields)) no_fields;
  env = (codes "HOME", codes "/root") ∷ [];
  secrets = [];
  strategy_matrix = no_fields;
  steps =
      (
        codes "build",
        record {
          outputs = (codes "id", codes "x1") ∷ [];
          outcome = codes "failure";
          conclusion = codes "success";
        },
      )
      ∷ [];
  needs = [];
  runner = [];
  inputs = [];
  vars = [];
  hash_files = none;
  whole_results = λ m. nothing;
  whole_result = λ r. nothing;
}

abbrev run : String → Option AnyValue
run expr = eval_expr plain_library pushed 40 (codes expr)

nested : run "github.event.tag == 'v1' && env.HOME != ''" ≡ some (bool true)
unfolding parse_or skip_whitespace span parse_string has_prefix has_dot bytes_eq lookup_context
    split_dot deep_lookup_from field_at text_at
nested = refl

step : run "steps.build.outputs.id" ≡ some (text (codes "x1"))
unfolding parse_or skip_whitespace span has_prefix bytes_eq lookup_context split_dot lookup_results
    result_at text_at
step = refl

-- An operand behind two others is not read once an earlier one is true, and neither is the rest.
early : run "(true || false || false) && false" ≡ some (bool true)
unfolding parse_or skip_whitespace span has_prefix bytes_eq
early = refl

-- With one operand fewer the value is false.
late : run "(true || false) && false" ≡ some (bool false)
unfolding parse_or skip_whitespace span has_prefix bytes_eq
late = refl

eval_expr-hangs_example : eval_expr plain_library pushed 100 (102 ∷ 40 ∷ 64 ∷ 41 ∷ []) ≡ none
unfolding bytes_eq
eval_expr-hangs_example = eval_expr-hangs plain_library pushed 100 (41 ∷ []) refl

eval_expr-escape_example :
    eval_expr plain_library pushed 6 (39 ∷ (escape (105 ∷ 39 ∷ []) ++ (39 ∷ [])))
    ≡ some (text (105 ∷ 39 ∷ []))
eval_expr-escape_example = eval_expr-escape plain_library pushed (105 ∷ 39 ∷ []) 1

-- A text before an expression, and behind it.
abbrev greeting : List Part
greeting = record { plain = codes "home: "; expr = codes "format('{0}', env.HOME)" } ∷ []

interpolate-template_example :
    interpolate plain_library (eval_expr plain_library pushed 20) (template greeting (codes "/kai"))
    ≡ filled plain_library (eval_expr plain_library pushed 20) greeting (codes "/kai")
unfolding cut_before has_prefix
interpolate-template_example =
    interpolate-template plain_library (eval_expr plain_library pushed 20) greeting (codes "/kai")
      (refl, (refl, refl))

greeted :
    filled plain_library (eval_expr plain_library pushed 20) greeting (codes "/kai")
    ≡ some (codes "home: /root/kai")
unfolding filled parse_or skip_whitespace span parse_string has_prefix bytes_eq lookup_context
    split_dot text_at call_function format_from replace_from
greeted = refl

-- The expression ends at the first "}}", which stands in a text here.
cut_in_text :
    interpolate plain_library (eval_expr plain_library pushed 20) (codes "${{'}}'}}")
    ≡ some (codes "'}}")
unfolding interpolate_from cut_before parse_or skip_whitespace parse_string has_prefix
cut_in_text = refl

-- !x && '
eval_expr-ends_example :
    (v : AnyValue) × (eval_expr plain_library pushed 15 (33 ∷ 120 ∷ 38 ∷ 38 ∷ 39 ∷ []) ≡ some v)
unfolding lacks
eval_expr-ends_example =
    eval_expr-ends plain_library pushed 15 (33 ∷ 120 ∷ 38 ∷ 38 ∷ 39 ∷ []) refl (omega arith)
