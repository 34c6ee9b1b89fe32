-- ===== src/Merge/FileLaws.antt =====
-- merge.go, mergeFile and MergeFiles: when a file is taken as it is, and what a result says.
use kai_server.Common.{
  ◌≡◌, ◌↔◌, ◌⊎◌, refl, sym, arith, Bool, true, false, Option, none, some, List, [], ◌∷◌, ◌++◌,
  String, if◌then◌else◌, length, length-append, append-nil, ◌≢◌, Result, ok, err, panic, stuck,
  ok-bind,
}
use kai_server.Common.Bytes.{Bytes, bytes_eq, bytes_eq_self, bytes_eq_iff}
use kai_server.Merge.Types.{Conflict, MergeResult, MergeUnit, Units}
use kai_server.Common.Maps.{lookup}
use kai_server.Merge.Files.{
  FileMerge, MergeError, base_units, left_units, right_units, merge_file, merge_units, finish_units,
  merge_keys, or_error, add_file, at_path, merge_paths, merge_files, no_result,
}

module _ (extract : String → Bytes → String → Option Units)
    (order : Units → Units → Units → List String) where
  -- A file that one side left alone comes out as the other side has it, present or not, and so does
  -- a file that both sides have alike.
  pub merge_file_clean :
      (path lang : String) (base side : Option Bytes)
      → (merge_file extract order path base base side lang ≡ ok (side, []))
        × (merge_file extract order path base side base lang ≡ ok (side, []))
        × (merge_file extract order path base side side lang ≡ ok (side, []))
  unfolding merge_file
  merge_file_clean path lang none none = (refl, refl, refl)
  merge_file_clean path lang none (some s) = (refl, refl, rw (bytes_eq_self s))
  merge_file_clean path lang (some b) none = (rw (bytes_eq_self b), rw (bytes_eq_self b), refl)
  merge_file_clean path lang (some b) (some s) = (
    ground (arith, bytes_eq_iff b s, bytes_eq_iff s b, bytes_eq_self b),
    ground (arith, bytes_eq_iff b s, bytes_eq_iff s b, bytes_eq_self b),
    rw (bytes_eq_self s),
  )

  finish_units_exclusive :
      (units : List MergeUnit) (conflicts cs : List Conflict) (merged : Option Bytes)
      → finish_units (units, conflicts) ≡ (merged, cs)
      → (merged ≡ none) ⊎ (cs ≡ [])
  unfolding finish_units
  finish_units_exclusive units [] cs merged h = ground arith
  finish_units_exclusive units (c ∷ conflicts) cs merged h = ground arith

  merge_units_exclusive :
      (path lang : String) (base left right : Bytes) (merged : Option Bytes) (cs : List Conflict)
      → merge_units extract order path base left right lang ≡ ok (merged, cs)
      → (merged ≡ none) ⊎ (cs ≡ [])
  unfolding merge_units
  merge_units_exclusive path lang base left right merged cs h =
      let (b, _, hb) = ok-bind (or_error (extract path base lang) _) _ _ h in
      let (l, _, hl) = ok-bind (or_error (extract path left lang) _) _ _ hb in
      let (r, _, hr) = ok-bind (or_error (extract path right lang) _) _ _ hl in
      let (units, conflicts) = merge_keys b l r (order b l r) [] [] in
      finish_units_exclusive units conflicts cs merged (ground arith)

  -- A file with conflicts has no merged content.
  pub merge_file_exclusive :
      (path lang : String) (base left right merged : Option Bytes) (cs : List Conflict)
      → merge_file extract order path base left right lang ≡ ok (merged, cs)
      → (merged ≡ none) ⊎ (cs ≡ [])
  unfolding merge_file
  merge_file_exclusive path lang none none none merged cs h = ground arith
  merge_file_exclusive path lang none none (some r) merged cs h = ground arith
  merge_file_exclusive path lang none (some l) none merged cs h = ground arith
  merge_file_exclusive path lang none (some l) (some r) merged cs h = ground arith
  merge_file_exclusive path lang (some b) none none merged cs h = ground arith
  merge_file_exclusive path lang (some b) none (some r) merged cs h = ground arith
  merge_file_exclusive path lang (some b) (some l) none merged cs h = ground arith
  merge_file_exclusive path lang (some b) (some l) (some r) merged cs h =
      ground (arith, merge_units_exclusive path lang b l r merged cs)

-- What MergeFiles has gathered: conflicts exactly where it has failed, and the files counted.
abbrev pub Gathered : MergeResult → Type 0
Gathered r = ((r.success ≡ true) ↔ (r.conflicts ≡ [])) × (r.stats.files_modified ≡ length r.files)

abbrev pub Returns {ℓ} : {A : Type ℓ} → Result MergeError A → Type ℓ
Returns {A = A} m = (x : A) × (m ≡ ok x)

either-Returns {ℓ} :
    {A : Type ℓ}
    → (t : Bool) (a b : Result MergeError A) → Returns a
    → Returns b
    → Returns (if t then a else b)
either-Returns true a b ha hb = ha
either-Returns false a b ha hb = hb

cons_not_last {ℓ} : {A : Type ℓ} → (xs ys : List A) (x : A) → xs ++ (x ∷ ys) ≢ []
cons_not_last [] ys x h = absurd (cc)
cons_not_last (z ∷ xs) ys x h = absurd (cc)

add_file-Gathered :
    (path : String) (merged : Option Bytes) (cs : List Conflict) (r : MergeResult)
    → Gathered r
    → Gathered (add_file path (merged, cs) r)
unfolding add_file
add_file-Gathered path none [] r (g, n) = (rw (append-nil r.conflicts) g, n)
add_file-Gathered path none (c ∷ cs) r (g, n) =
    ((λ h. absurd (cc), λ h. elim (cons_not_last r.conflicts cs c h) [ ]), n)
add_file-Gathered path (some bytes) [] r (g, n) =
    (rw (append-nil r.conflicts) g, omega (arith, n, length-append r.files ((path, bytes) ∷ [])))
add_file-Gathered path (some bytes) (c ∷ cs) r (g, n) = (
  (λ h. absurd (cc), λ h. elim (cons_not_last r.conflicts cs c h) [ ]),
  omega (arith, n, length-append r.files ((path, bytes) ∷ [])),
)

ok_injective :
    (m : Result MergeError MergeResult) (r r' : MergeResult) → m ≡ ok r → m ≡ ok r' → r ≡ r'
ok_injective m r r' h k = cc

at_path-ok :
    (path : String) (m : FileMerge) (x : Option Bytes × List Conflict)
    → at_path path m ≡ ok x
    → m ≡ ok x
at_path-ok path (ok y) x h = h
at_path-ok path (err e) x h = absurd (cc)
at_path-ok path panic x h = absurd (cc)
at_path-ok path stuck x h = absurd (cc)

module _ (extract : String → Bytes → String → Option Units)
    (order : Units → Units → Units → List String) where
  merge_paths-Gathered :
      (paths : List String) (base left right : List (String × Bytes)) (lang : String)
      (r r' : MergeResult)
      → merge_paths extract order paths base left right lang r ≡ ok r'
      → Gathered r
      → Gathered r'
  unfolding merge_paths
  merge_paths-Gathered [] base left right lang r r' h g =
      rw (sym (ok_injective (ok r) r r' refl h)) g
  merge_paths-Gathered (path ∷ paths) base left right lang r r' h g =
      let ((merged, cs), _, h') =
        ok-bind
          (at_path path (
            merge_file extract order path (lookup path base) (lookup path left) (lookup path right)
              lang))
          _ _ h in
      merge_paths-Gathered paths base left right lang (add_file path (merged, cs) r) r' h'
        (add_file-Gathered path merged cs r g)

  -- When MergeFiles returns a result, it is a success exactly where it has no conflicts, and its count
  -- of modified files is the number of files it holds.
  pub merge_files-Gathered :
      (paths : List String) (base left right : List (String × Bytes)) (lang : String)
      (r : MergeResult)
      → merge_files extract order paths base left right lang ≡ ok r
      → Gathered r
  unfolding merge_files
  merge_files-Gathered paths base left right lang r h =
      merge_paths-Gathered paths base left right lang no_result r h ((λ _. refl, λ _. refl), refl)

  module _
      (extracts : (path : String) (content : Bytes) (lang : String)
        → extract path content lang ≢ none) where
    extracted :
        (path : String) (content : Bytes) (lang : String) (e : MergeError)
        → (u : Units) × (or_error (extract path content lang) e ≡ ok u)
    extracted path content lang e =
        extracted_from (extract path content lang) (extracts path content lang) e
      where
        extracted_from :
            (o : Option Units) → o ≢ none → (e : MergeError) → (u : Units) × (or_error o e ≡ ok u)
        extracted_from none h e = elim (h refl) [ ]
        extracted_from (some u) h e = (u, refl)

    merge_units-Returns :
        (path : String) (base left right : Bytes) (lang : String)
        → Returns (merge_units extract order path base left right lang)
    unfolding merge_units
    merge_units-Returns path base left right lang =
        let (b, hb) = extracted path base lang base_units in
        let (l, hl) = extracted path left lang left_units in
        let (r, hr) = extracted path right lang right_units in
        (finish_units (merge_keys b l r (order b l r) [] []), rw (hb, hl, hr))

    merge_file-Returns :
        (path : String) (base left right : Option Bytes) (lang : String)
        → Returns (merge_file extract order path base left right lang)
    unfolding merge_file
    merge_file-Returns path none none none lang = (_, refl)
    merge_file-Returns path none none (some r) lang = (_, refl)
    merge_file-Returns path none (some l) none lang = (_, refl)
    merge_file-Returns path none (some l) (some r) lang =
        either-Returns (bytes_eq l r) _ _ (_, refl) (_, refl)
    merge_file-Returns path (some b) none none lang = (_, refl)
    merge_file-Returns path (some b) none (some r) lang =
        either-Returns (bytes_eq b r) _ _ (_, refl) (_, refl)
    merge_file-Returns path (some b) (some l) none lang =
        either-Returns (bytes_eq b l) _ _ (_, refl) (_, refl)
    merge_file-Returns path (some b) (some l) (some r) lang =
        either-Returns (bytes_eq l r) _ _ (_, refl)
          (either-Returns (bytes_eq b l) _ _ (_, refl)
            (either-Returns (bytes_eq b r) _ _ (_, refl) (merge_units-Returns path b l r lang)))

    merge_paths-Returns :
        (paths : List String) (base left right : List (String × Bytes)) (lang : String)
        (r : MergeResult)
        → Returns (merge_paths extract order paths base left right lang r)
    unfolding merge_paths
    merge_paths-Returns [] base left right lang r = (r, refl)
    merge_paths-Returns (path ∷ paths) base left right lang r =
        let (x, hx) =
          merge_file-Returns path (lookup path base) (lookup path left) (lookup path right) lang in
        let (r', hr) = merge_paths-Returns paths base left right lang (add_file path x r) in
        (r', rw hx hr)

    -- If every unit extraction succeeds, MergeFiles returns a result.
    pub merge_files-Returns :
        (paths : List String) (base left right : List (String × Bytes)) (lang : String)
        → Returns (merge_files extract order paths base left right lang)
    unfolding merge_files
    merge_files-Returns paths base left right lang =
        merge_paths-Returns paths base left right lang no_result
