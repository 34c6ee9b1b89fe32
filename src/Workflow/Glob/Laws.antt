-- ===== src/Workflow/Glob/Laws.antt =====
-- filepath.Match on the patterns without a special character.
use kai_server.Common.{
  ℕ, ◌≡◌, refl, sym, ap, ◌∙◌, arith, Bool, false, ◌||◌, none, some, List, [], ◌∷◌, ◌++◌, map,
  append_assoc, append-nil, ◌==◌, All, Bool-cases, inl, inr,
}
use kai_server.Common.Bytes.{Bytes, bytes_eq}
use kai_server.Workflow.Glob.{
  Token, literal, plain, step_plain, step_mode, tokens, chunks, match_chunk, match_chunks, accepted,
  is_nil, filepath_match, match_tokens,
}

abbrev pub is_special : ℕ → Bool
is_special c = c == b'*' || (c == b'?' || (c == b'[' || c == b'\\'))

abbrev pub Literal : Bytes → Type 0
Literal p = All (λ c. is_special c ≡ false) p

step_plain-literal : (c : ℕ) → is_special c ≡ false → step_plain c ≡ (literal c ∷ [], plain)
step_plain-literal c h = ground arith

tokens-literal : (p : Bytes) → Literal p → tokens plain p ≡ some (map literal p)
unfolding tokens step_mode
tokens-literal [] h = refl
tokens-literal (c ∷ p) (h, hs) = rw (step_plain-literal c h, tokens-literal p hs)

chunks-literal :
    (ts : List Token) (p : Bytes)
    → chunks false ts (map literal p) ≡ (false, ts ++ map literal p) ∷ []
unfolding chunks
chunks-literal ts [] = ap (λ l. (false, l) ∷ []) (sym (append-nil ts))
chunks-literal [] (c ∷ p) = chunks-literal (literal c ∷ []) p
chunks-literal (t ∷ ts) (c ∷ p) =
    chunks-literal (t ∷ (ts ++ (literal c ∷ []))) p
    ∙ ap (λ l. (false, t ∷ l) ∷ []) (append_assoc ts (literal c ∷ []) (map literal p))

match_chunk-literal :
    (p name : Bytes)
    → (elim (accepted false (match_chunk (map literal p) name)) [
      | none ↦ false
      | some rest ↦ is_nil rest
    ])
      ≡ bytes_eq p name
unfolding match_chunk bytes_eq
match_chunk-literal [] [] = refl
match_chunk-literal [] (d ∷ name) = refl
match_chunk-literal (c ∷ p) [] = refl
match_chunk-literal (c ∷ p) (d ∷ name) = elim (Bool-cases (c == d)) [
  | inl e ↦ rw e (match_chunk-literal p name)
  | inr e ↦ rw e
]

-- A pattern without special characters matches itself and nothing else.
pub filepath_match-Literal : (p name : Bytes) → Literal p → filepath_match p name ≡ bytes_eq p name
unfolding filepath_match match_chunks bytes_eq
filepath_match-Literal [] [] h = refl
filepath_match-Literal [] (d ∷ name) h = refl
filepath_match-Literal (c ∷ p) name h =
    ap (λ t. match_tokens t name) (tokens-literal (c ∷ p) h)
    ∙ ap (λ cs. match_chunks cs name) (chunks-literal [] (c ∷ p))
    ∙ match_chunk-literal (c ∷ p) name
