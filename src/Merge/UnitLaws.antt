-- ===== src/Merge/UnitLaws.antt =====
-- merge.go, mergeUnit: when it takes a side, and when it raises a conflict.
use kai_server.Common.{
  ◌≡◌, ◌≢◌, ◌⊎◌, refl, ap, ◌∙◌, arith, Bool, true, false, Option, none, some, str_eq, str_eq_iff,
  Bool-cases, inl, inr,
}
use kai_server.Common.Bytes.{bytes_eq_iff, bytes_eq_self}
use kai_server.Merge.Types.{UnitKind, unit_function, unit_method, MergeUnit}
use kai_server.Merge.Units.{
  Merged, equivalent_units, merge_changed_unit, merge_unit, merge_function_unit, merge_by_kind,
}

pub equivalent_self : (u : Option MergeUnit) → equivalent_units u u ≡ true
unfolding equivalent_units
equivalent_self none = refl
equivalent_self (some u) = bytes_eq_self u.body_hash

pub equivalent_comm : (a b : Option MergeUnit) → equivalent_units a b ≡ equivalent_units b a
unfolding equivalent_units
equivalent_comm none none = refl
equivalent_comm none (some b) = refl
equivalent_comm (some a) none = refl
equivalent_comm (some a) (some b) =
    ground (arith, bytes_eq_iff a.body_hash b.body_hash, bytes_eq_iff b.body_hash a.body_hash)

pub equivalent_trans :
    (a b c : Option MergeUnit)
    → equivalent_units a b ≡ true
    → equivalent_units b c ≡ true
    → equivalent_units a c ≡ true
unfolding equivalent_units
equivalent_trans none none c h k = k
equivalent_trans none (some b) c h k = absurd (cc)
equivalent_trans (some a) none c h k = absurd (cc)
equivalent_trans (some a) (some b) none h k = k
equivalent_trans (some a) (some b) (some c) h k = ground (
  arith,
  bytes_eq_iff a.body_hash b.body_hash,
  bytes_eq_iff b.body_hash c.body_hash,
  bytes_eq_iff a.body_hash c.body_hash,
)

-- The merge took a version equivalent to `u`, with no conflict.
abbrev pub Takes : Merged → Option MergeUnit → Type 0
Takes m u = (m.1 ≡ none) × (equivalent_units m.0 u ≡ true)

-- A side that did not change a unit leaves the unit to the other side, whatever that did.
pub merge_unit-left_unchanged :
    (base left right : Option MergeUnit)
    → equivalent_units base left ≡ true
    → Takes (merge_unit base left right) right
unfolding merge_unit
merge_unit-left_unchanged none none none h = ground arith
merge_unit-left_unchanged none none (some right) h = ground (arith, equivalent_self (some right))
merge_unit-left_unchanged none (some left) right h = absurd (cc)
merge_unit-left_unchanged (some base) none right h = absurd (cc)
merge_unit-left_unchanged (some base) (some left) none h =
    ground (arith, equivalent_comm (some left) (some base))
merge_unit-left_unchanged (some base) (some left) (some right) h = ground (
  arith,
  equivalent_self (some right),
  equivalent_comm (some left) (some base),
  equivalent_comm (some right) (some base),
)

pub merge_unit-right_unchanged :
    (base left right : Option MergeUnit)
    → equivalent_units base right ≡ true
    → Takes (merge_unit base left right) left
unfolding merge_unit
merge_unit-right_unchanged none none none h = ground arith
merge_unit-right_unchanged none (some left) none h = ground (arith, equivalent_self (some left))
merge_unit-right_unchanged none left (some right) h = absurd (cc)
merge_unit-right_unchanged (some base) left none h = absurd (cc)
merge_unit-right_unchanged (some base) none (some right) h =
    ground (arith, equivalent_comm (some right) (some base))
merge_unit-right_unchanged (some base) (some left) (some right) h = ground (
  arith,
  equivalent_self (some left),
  equivalent_comm (some left) (some base),
  equivalent_comm (some right) (some base),
)

-- Equal hashes come with equal signatures: the hash covers the text of the whole unit.
abbrev pub SameSignature : Option MergeUnit → Option MergeUnit → Type 0
SameSignature none right = Unit
SameSignature (some left) none = Unit
SameSignature (some left) (some right) = left.signature ≡ right.signature

merge_by_kind-same :
    (kind : UnitKind) (base left right : MergeUnit)
    → equivalent_units (some left) (some right) ≡ true
    → left.signature ≡ right.signature
    → Takes (merge_by_kind kind base left right) (some left)
unfolding merge_by_kind
merge_by_kind-same unit_function base left right h s = ground (
  arith,
  str_eq_iff left.signature right.signature,
  str_eq_iff left.signature base.signature,
  str_eq_iff right.signature base.signature,
  equivalent_self (some left),
  equivalent_comm (some left) (some right),
)
merge_by_kind-same unit_method base left right h s = ground (
  arith,
  str_eq_iff left.signature right.signature,
  str_eq_iff left.signature base.signature,
  str_eq_iff right.signature base.signature,
  equivalent_self (some left),
  equivalent_comm (some left) (some right),
)
merge_by_kind-same _ base left right h s = ground (arith, equivalent_self (some left))

merge_changed_unit-same :
    (base left right : MergeUnit)
    → equivalent_units (some left) (some right) ≡ true
    → left.signature ≡ right.signature
    → Takes (merge_changed_unit base left right) (some left)
unfolding merge_changed_unit
merge_changed_unit-same base left right h s = merge_by_kind-same base.kind base left right h s

-- Two sides that made the same change agree on it.
pub merge_unit-same_change :
    (base left right : Option MergeUnit)
    → equivalent_units left right ≡ true
    → SameSignature left right
    → Takes (merge_unit base left right) left
unfolding merge_unit
merge_unit-same_change none none none h s = ground arith
merge_unit-same_change none none (some right) h s = absurd (cc)
merge_unit-same_change none (some left) none h s = absurd (cc)
merge_unit-same_change none (some left) (some right) h s =
    ground (arith, equivalent_self (some left))
merge_unit-same_change (some base) none none h s = ground arith
merge_unit-same_change (some base) none (some right) h s = absurd (cc)
merge_unit-same_change (some base) (some left) none h s = absurd (cc)
merge_unit-same_change (some base) (some left) (some right) h s = ground (
  arith,
  equivalent_self (some left),
  equivalent_comm (some left) (some right),
  equivalent_comm (some base) (some left),
  equivalent_comm (some base) (some right),
  merge_changed_unit-same base left right h s,
)

abbrev pub raises : Merged → Bool
raises (unit, none) = false
raises (unit, some c) = true

abbrev pub Agree : Merged → Merged → Type 0
Agree m n = (raises m ≡ raises n) × (equivalent_units m.0 n.0 ≡ true)

merge_by_kind_comm :
    (kind : UnitKind) (base left right : MergeUnit)
    → Agree (merge_by_kind kind base left right) (merge_by_kind kind base right left)
unfolding merge_by_kind
merge_by_kind_comm unit_function base left right = ground (
  arith,
  str_eq_iff left.signature right.signature,
  str_eq_iff right.signature left.signature,
  equivalent_self (some left),
  equivalent_self (some right),
  equivalent_comm (some left) (some right),
)
merge_by_kind_comm unit_method base left right = ground (
  arith,
  str_eq_iff left.signature right.signature,
  str_eq_iff right.signature left.signature,
  equivalent_self (some left),
  equivalent_self (some right),
  equivalent_comm (some left) (some right),
)
merge_by_kind_comm _ base left right = ground (arith, equivalent_comm (some left) (some right))

merge_changed_unit_comm :
    (base left right : MergeUnit)
    → Agree (merge_changed_unit base left right) (merge_changed_unit base right left)
unfolding merge_changed_unit
merge_changed_unit_comm base left right = merge_by_kind_comm base.kind base left right

-- Which side is called left matters neither to whether there is a conflict nor, up to equivalence,
-- to what is taken.
pub merge_unit_comm :
    (base left right : Option MergeUnit)
    → Agree (merge_unit base left right) (merge_unit base right left)
unfolding merge_unit
merge_unit_comm none none none = ground arith
merge_unit_comm none none (some right) = ground (arith, equivalent_self (some right))
merge_unit_comm none (some left) none = ground (arith, equivalent_self (some left))
merge_unit_comm none (some left) (some right) =
    ground (arith, equivalent_comm (some left) (some right))
merge_unit_comm (some base) none none = ground arith
merge_unit_comm (some base) none (some right) = ground arith
merge_unit_comm (some base) (some left) none = ground arith
merge_unit_comm (some base) (some left) (some right) = ground (
  arith,
  equivalent_self (some base),
  equivalent_self (some left),
  equivalent_self (some right),
  equivalent_comm (some base) (some left),
  equivalent_comm (some base) (some right),
  merge_changed_unit_comm base left right,
)

takes_left :
    (base left right : MergeUnit)
    → (base.kind ≡ unit_function) ⊎ (base.kind ≡ unit_method)
    → left.signature ≢ base.signature
    → right.signature ≡ base.signature
    → merge_changed_unit base left right ≡ (some left, none)
unfolding merge_changed_unit
takes_left base left right kind sl sr =
    let by_function : merge_by_kind base.kind base left right
        ≡ merge_function_unit base left right =
      elim kind [
        | inl e ↦ ap (λ k. merge_by_kind k base left right) e
        | inr e ↦ ap (λ k. merge_by_kind k base left right) e
      ] in
    let l : str_eq left.signature base.signature ≡ false =
      elim (Bool-cases (str_eq left.signature base.signature)) [
        | inl same ↦ absurd (sl ((str_eq_iff left.signature base.signature).0 same))
        | inr differ ↦ differ
      ] in
    let r : str_eq right.signature base.signature ≡ true =
      (str_eq_iff right.signature base.signature).1 sr in
    by_function ∙ rw (l, r)
