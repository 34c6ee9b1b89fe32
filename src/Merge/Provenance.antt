-- ===== src/Merge/Provenance.antt =====
-- merge.go, mergeUnit and the loop of mergeUnits: where the units of a merge come from.
use kai_server.Common.{
  ◌≡◌, ◌⊎◌, inl, inr, sym, arith, Option, none, some, List, [], ◌∷◌, ◌++◌, String, All,
}
use kai_server.Merge.Types.{UnitKind, unit_function, unit_method, MergeUnit, Conflict, Units}
use kai_server.Merge.Units.{Merged, merge_unit, merge_by_kind, merge_changed_unit}
use kai_server.Common.Maps.{lookup}
use kai_server.Merge.Files.{merge_keys}

-- Nothing, or a unit with no conflict that is one of the three versions.
abbrev pub ComesFrom : Merged → Option MergeUnit → Option MergeUnit → Option MergeUnit → Type 0
ComesFrom m base left right =
    (m.0 ≡ none) ⊎ ((m.1 ≡ none) × ((m.0 ≡ base) ⊎ ((m.0 ≡ left) ⊎ (m.0 ≡ right))))

merge_by_kind-ComesFrom :
    (kind : UnitKind) (base left right : MergeUnit)
    → ComesFrom (merge_by_kind kind base left right) (some base) (some left) (some right)
unfolding merge_by_kind
merge_by_kind-ComesFrom unit_function base left right = ground arith
merge_by_kind-ComesFrom unit_method base left right = ground arith
merge_by_kind-ComesFrom _ base left right = ground arith

merge_changed_unit-ComesFrom :
    (base left right : MergeUnit)
    → ComesFrom (merge_changed_unit base left right) (some base) (some left) (some right)
unfolding merge_changed_unit
merge_changed_unit-ComesFrom base left right = merge_by_kind-ComesFrom base.kind base left right

-- mergeUnit invents nothing: a unit that it keeps is one of the three versions, unchanged, and comes
-- with no conflict.
pub merge_unit-ComesFrom :
    (base left right : Option MergeUnit) → ComesFrom (merge_unit base left right) base left right
unfolding merge_unit
merge_unit-ComesFrom none none none = ground arith
merge_unit-ComesFrom none none (some right) = ground arith
merge_unit-ComesFrom none (some left) none = ground arith
merge_unit-ComesFrom none (some left) (some right) = ground arith
merge_unit-ComesFrom (some base) none none = ground arith
merge_unit-ComesFrom (some base) none (some right) = ground arith
merge_unit-ComesFrom (some base) (some left) none = ground arith
merge_unit-ComesFrom (some base) (some left) (some right) =
    ground (arith, merge_changed_unit-ComesFrom base left right)

-- `u` stands under some key in one of the three files.
abbrev pub IsVersion : Units → Units → Units → MergeUnit → Type 0
IsVersion base left right u =
    (key : String) × ((lookup key base ≡ some u)
      ⊎ ((lookup key left ≡ some u) ⊎ (lookup key right ≡ some u)))

All-snoc {ℓ κ} :
    {A : Type ℓ} → (P : A → Type κ) (xs : List A) (y : A) → All P xs → P y → All P (xs ++ (y ∷ []))
All-snoc P [] y h k = (k, h)
All-snoc P (x ∷ xs) y (hx, h) k = (hx, All-snoc P xs y h k)

-- The units that the loop over the keys gathers are versions of the three files, and a unit that it
-- starts with is kept.
pub merge_keys-All-IsVersion :
    (base left right : Units) (keys : List String) (units : List MergeUnit)
    (conflicts : List Conflict)
    → All (IsVersion base left right) units
    → All (IsVersion base left right) (merge_keys base left right keys units conflicts).0
unfolding merge_keys
merge_keys-All-IsVersion base left right [] units conflicts h = h
merge_keys-All-IsVersion base left right (key ∷ keys) units conflicts h =
    let m = merge_unit (lookup key base) (lookup key left) (lookup key right) in
    merge_keys-All-IsVersion base left right keys _ _ (
      add_version key m
        (merge_unit-ComesFrom (lookup key base) (lookup key left) (lookup key right)))
  where
    add_version :
        (key : String) (m : Merged)
        → ComesFrom m (lookup key base) (lookup key left) (lookup key right)
        → All (IsVersion base left right) (elim m.0 [ none ↦ units | some u ↦ units ++ (u ∷ []) ])
    add_version key (none, c) _ = h
    add_version key (some u, c) (inl e) = absurd (cc)
    add_version key (some u, c) (inr (_, from)) = All-snoc (IsVersion base left right) units u h (
      key,
      elim from [
        | inl e ↦ inl (sym e)
        | inr e ↦ elim e [ inl e ↦ inr (inl (sym e)) | inr e ↦ inr (inr (sym e)) ]
      ],
    )
