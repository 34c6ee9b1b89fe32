-- ===== src/Workflow/Glob.antt =====
-- filepath.Match of Go's standard library, and the patterns of
-- kailab-control/internal/workflow/trigger.go that stand on it. Strings are lists of characters.
pub mod Laws
mod Tests
use kai_server.Common.{
  ℕ, ◌+◌, ◌-◌, Bool, true, false, ◌&&◌, ◌||◌, not, Option, none, some, List, [], ◌∷◌, ◌++◌, leb,
  ◌==◌, if◌then◌else◌, length, take, drop,
}
use kai_server.Common.Bytes.{Bytes, bytes_eq, has_prefix, codes}

-- strings.HasSuffix, TrimPrefix and TrimSuffix
unfoldable pub has_suffix : Bytes → Bytes → Bool
has_suffix s p = leb (length p) (length s) && bytes_eq (drop (length s - length p) s) p

unfoldable pub trim_prefix : Bytes → Bytes → Bytes
trim_prefix s p = if has_prefix s p then drop (length p) s else s

unfoldable pub trim_suffix : Bytes → Bytes → Bytes
unfolding has_suffix
trim_suffix s p = if has_suffix s p then take (length s - length p) s else s

-- strings.Contains(pattern, "**")
unfoldable pub contains_stars : Bytes → Bool
contains_stars [] = false
contains_stars (c ∷ cs) = has_prefix (c ∷ cs) (codes "**") || contains_stars cs

-- strings.Split(pattern, "**"), a part being read into `part`
unfoldable pub split_stars : Bytes → Bytes → List Bytes
split_stars part [] = part ∷ []
split_stars part (c ∷ []) = (part ++ (c ∷ [])) ∷ []
split_stars part (c ∷ d ∷ cs) =
    if c == b'*' && d == b'*'
    then part ∷ split_stars [] cs
    else split_stars (part ++ (c ∷ [])) (d ∷ cs)

-- What a pattern of filepath.Match is read as. A class has its ranges, and is negated or not.
pub data Token : Type 0 where
  any_run any_one : Token
  literal : ℕ → Token
  class : Bool → List (ℕ × ℕ) → Token

-- Where the reader of a pattern stands: `range_dash` has a lower bound and may meet a dash.
pub data Mode : Type 0 where
  plain escaped opened : Mode
  range_lo lo_escaped : Bool → List (ℕ × ℕ) → Mode
  range_dash range_hi hi_escaped : Bool → List (ℕ × ℕ) → ℕ → Mode

abbrev pub is_nil {ℓ} : {A : Type ℓ} → List A → Bool
is_nil [] = true
is_nil (x ∷ xs) = false

-- No class is empty, and a bound is not a bare dash or bracket.
abbrev pub step_lo : Bool → List (ℕ × ℕ) → ℕ → Option (List Token × Mode)
step_lo negated ranges c =
    if c == b']'
    then if is_nil ranges then none else some (class negated ranges ∷ [], plain)
    else if c == b'-'
    then none
    else if c == b'\\'
    then some ([], lo_escaped negated ranges)
    else some ([], range_dash negated ranges c)

abbrev pub step_plain : ℕ → List Token × Mode
step_plain c =
    if c == b'*'
    then (any_run ∷ [], plain)
    else if c == b'?'
    then (any_one ∷ [], plain)
    else if c == b'['
    then ([], opened)
    else if c == b'\\'
    then ([], escaped)
    else (literal c ∷ [], plain)

-- one character of a pattern: the tokens that it completes, and `none` for ErrBadPattern
unfoldable pub step_mode : Mode → ℕ → Option (List Token × Mode)
step_mode plain c = some (step_plain c)
step_mode escaped c = some (literal c ∷ [], plain)
step_mode opened c = if c == b'^' then some ([], range_lo true []) else step_lo false [] c
step_mode (range_lo negated ranges) c = step_lo negated ranges c
step_mode (lo_escaped negated ranges) c = some ([], range_dash negated ranges c)
step_mode (range_dash negated ranges lo) c =
    if c == b'-'
    then some ([], range_hi negated ranges lo)
    else step_lo negated (ranges ++ ((lo, lo) ∷ [])) c
step_mode (range_hi negated ranges lo) c =
    if c == b']' || c == b'-'
    then none
    else if c == b'\\'
    then some ([], hi_escaped negated ranges lo)
    else some ([], range_lo negated (ranges ++ ((lo, c) ∷ [])))
step_mode (hi_escaped negated ranges lo) c = some ([], range_lo negated (ranges ++ ((lo, c) ∷ [])))

-- A pattern may not end in an escape or a class.
abbrev pub ends_well : Mode → Option (List Token)
ends_well plain = some []
ends_well _ = none

abbrev pub append_tokens : List Token → Option (List Token) → Option (List Token)
append_tokens ts none = none
append_tokens ts (some us) = some (ts ++ us)

unfoldable pub tokens : Mode → Bytes → Option (List Token)
unfolding step_mode
tokens mode [] = ends_well mode
tokens mode (c ∷ cs) = elim (step_mode mode c) [
  | none ↦ none
  | some next ↦ append_tokens next.0 (tokens next.1 cs)
]

-- scanChunk: a run of stars or none, and what follows up to the next star
unfoldable pub chunks : Bool → List Token → List Token → List (Bool × List Token)
chunks star chunk [] = (star, chunk) ∷ []
chunks star [] (any_run ∷ ts) = chunks true [] ts
chunks star (t ∷ chunk) (any_run ∷ ts) = (star, t ∷ chunk) ∷ chunks true [] ts
chunks star chunk (t ∷ ts) = chunks star (chunk ++ (t ∷ [])) ts

abbrev pub in_ranges : List (ℕ × ℕ) → ℕ → Bool
in_ranges [] c = false
in_ranges ((lo, hi) ∷ ranges) c = (leb lo c && leb c hi) || in_ranges ranges c

abbrev pub token_matches : Token → ℕ → Bool
token_matches any_run c = false
token_matches any_one c = not (c == b'/')
token_matches (literal d) c = d == c
token_matches (class negated ranges) c = if in_ranges ranges c then not negated else negated

-- matchChunk: what is left of the name
unfoldable pub match_chunk : List Token → Bytes → Option Bytes
match_chunk [] name = some name
match_chunk (t ∷ ts) [] = none
match_chunk (t ∷ ts) (c ∷ name) = if token_matches t c then match_chunk ts name else none

-- A match is taken if it ends the name, or is not the last.
abbrev pub accepted : Bool → Option Bytes → Option Bytes
accepted more none = none
accepted more (some rest) = if is_nil rest || more then some rest else none

-- the star takes more and more characters, none of them a separator
unfoldable pub scan_star : List Token → Bool → (Bytes → Bool) → Bytes → Bool
unfolding match_chunk
scan_star chunk more next [] = false
scan_star chunk more next (c ∷ name) =
    not (c == b'/') && elim (accepted more (match_chunk chunk name)) [
      | none ↦ scan_star chunk more next name
      | some rest ↦ next rest
    ]

abbrev pub no_separator : Bytes → Bool
no_separator [] = true
no_separator (c ∷ cs) = not (c == b'/') && no_separator cs

unfoldable pub match_chunks : List (Bool × List Token) → Bytes → Bool
unfolding scan_star match_chunk
match_chunks [] name = is_nil name
match_chunks ((true, []) ∷ cs) name = no_separator name
match_chunks ((star, chunk) ∷ cs) name =
    elim (accepted (not (is_nil cs)) (match_chunk chunk name)) [
      | none ↦ star && scan_star chunk (not (is_nil cs)) (match_chunks cs) name
      | some rest ↦ match_chunks cs rest
    ]

abbrev pub match_tokens : Option (List Token) → Bytes → Bool
match_tokens none name = false
match_tokens (some []) name = is_nil name
match_tokens (some (t ∷ ts)) name = match_chunks (chunks false [] (t ∷ ts)) name

-- filepath.Match, its error dropped as the source drops it
unfoldable pub filepath_match : Bytes → Bytes → Bool
unfolding tokens chunks match_chunks
filepath_match pattern name = match_tokens (tokens plain pattern) name

-- parts[len(parts)-1]
abbrev pub last_part : Bytes → List Bytes → Bytes
last_part p [] = p
last_part p (q ∷ parts) = last_part q parts
