-- ===== src/Cron/Safety.antt =====
-- cron.go, parsePart, parseField and Parse: what they return, and when they panic.
use mathlib.Core.Path.{subst⁻¹}
use kai_server.Common.Ints.{ℤ, pos, negsuc}
use kai_server.Common.{
  ℕ, zero, suc, ◌+◌, ◌-◌, ◌^◌, ◌≤◌, ◌<◌, ◌≡◌, ◌⊎◌, ◌↔◌, refl, ap, ◌∙◌, arith, true, false, ◌||◌,
  Option, none, some, ltb, length, set, length-set, Result, ok, err, panic, Bool-cases,
  Option-cases, inl, inr,
}
use kai_server.Common.Bytes.{Bytes, bytes_eq, codes}
use kai_server.Cron.{
  CronError, out_of_bounds, invalid_step, Bits, set_range, all_between, checked_range, range_ends,
  single_value, atoi, cut_at, parse_base, with_step, parse_part,
}
use kai_server.Cron.Ranges.{all_between-Sets}

-- An error, or as many bits as before.
abbrev pub Keeps : Bits → Result CronError Bits → Type 0
Keeps bits r =
    ((e : CronError) × (r ≡ err e))
    ⊎ ((bits' : Bits) × (r ≡ ok bits') × (length bits' ≡ length bits))

-- The part names a step that an int cannot add to the last value.
abbrev pub HugeStep : ℕ → Bytes → Type 0
HugeStep max part =
    (parts : Bytes × Bytes) × (n : ℕ) × (cut_at b'/' part ≡ some parts)
    × (atoi parts.1 ≡ some (pos n))
    × (2 ^ 63 ≤ max + n)

module _ (min max : ℕ) (ordered : min ≤ max) (small : max < 2 ^ 62) where
  all_between-Keeps :
      (lo hi step : ℕ) (bits : Bits)
      → lo ≤ hi
      → hi ≤ max
      → max < length bits
      → zero < step
      → max + step < 2 ^ 63
      → Keeps bits (all_between lo hi step bits)
  all_between-Keeps lo hi step bits h k l s o =
      let (bits', run, (len, _)) =
        all_between-Sets lo hi step bits h (omega arith) s (omega arith) in
      inr (bits', run, len)

  single_value-Keeps :
      (v : Option ℤ) (bits : Bits) → max < length bits → Keeps bits (single_value v min max bits)
  single_value-Keeps none bits l = inl (_, refl)
  single_value-Keeps (some (negsuc n)) bits l = inl (_, refl)
  single_value-Keeps (some (pos n)) bits l = elim (Bool-cases (ltb n min || ltb max n)) [
    | inl e ↦ rw e (inl (out_of_bounds, refl))
    | inr e ↦
        let inside : ltb n (length bits) ≡ true = ground arith in
        inr (set bits n true, rw (e, inside), length-set bits n true)
  ]

  checked_range-Keeps :
      (lo hi : ℤ) (step : ℕ) (bits : Bits)
      → max < length bits
      → zero < step
      → max + step < 2 ^ 63
      → Keeps bits (checked_range lo hi min max step bits)
  checked_range-Keeps (pos lo) (pos hi) step bits l s o =
      elim (Bool-cases (ltb lo min || ltb max hi || ltb hi lo)) [
        | inl e ↦ rw e (inl (out_of_bounds, refl))
        | inr e ↦ rw e (all_between-Keeps lo hi step bits (ground arith) (ground arith) l s o)
      ]
  checked_range-Keeps (negsuc lo) hi step bits l s o = inl (out_of_bounds, refl)
  checked_range-Keeps (pos lo) (negsuc hi) step bits l s o = elim (Bool-cases (ltb lo min)) [
    | inl e ↦ rw e (inl (out_of_bounds, refl))
    | inr e ↦ rw e (inl (out_of_bounds, refl))
  ]

  range_ends-Keeps :
      (lo hi : Option ℤ) (step : ℕ) (bits : Bits)
      → max < length bits
      → zero < step
      → max + step < 2 ^ 63
      → Keeps bits (range_ends lo hi min max step bits)
  range_ends-Keeps none hi step bits l s o = inl (_, refl)
  range_ends-Keeps (some lo) none step bits l s o = inl (_, refl)
  range_ends-Keeps (some lo) (some hi) step bits l s o = checked_range-Keeps lo hi step bits l s o

  parse_base-Keeps :
      (part : Bytes) (step : ℕ) (bits : Bits)
      → max < length bits
      → zero < step
      → max + step < 2 ^ 63
      → Keeps bits (parse_base part min max step bits)
  unfolding parse_base
  parse_base-Keeps part step bits l s o = elim (Bool-cases (bytes_eq part (codes "*"))) [
    | inl e ↦ rw e (all_between-Keeps min max step bits ordered (omega arith) l s o)
    | inr e ↦ rw e (elim (Option-cases (cut_at b'-' part)) [
      | inl c ↦ rw c (single_value-Keeps (atoi part) bits l)
      | inr c ↦ rw (c.1) (range_ends-Keeps (atoi c.0.0) (atoi c.0.1) step bits l s o)
    ])
  ]

  with_step-Keeps :
      (step : Option ℤ) (part : Bytes) (bits : Bits)
      → max < length bits
      → Keeps bits (with_step step part min max bits)
        ⊎ ((n : ℕ) × (step ≡ some (pos n)) × (2 ^ 63 ≤ max + n))
  with_step-Keeps none part bits l = inl (inl (invalid_step, refl))
  with_step-Keeps (some (negsuc n)) part bits l = inl (inl (invalid_step, refl))
  with_step-Keeps (some (pos zero)) part bits l = inl (inl (invalid_step, refl))
  with_step-Keeps (some (pos (suc n))) part bits l =
      elim (Bool-cases (ltb (max + suc n) (2 ^ 63))) [
        | inl e ↦ inl (parse_base-Keeps part (suc n) bits l (omega arith) (ground arith))
        | inr e ↦ inr (suc n, refl, ground arith)
      ]

  parse_part-no_step :
      (part : Bytes) (bits : Bits)
      → cut_at b'/' part ≡ none
      → parse_part part min max bits ≡ parse_base part min max 1 bits
  unfolding parse_part
  parse_part-no_step part bits c = rw (parse_part, c)

  parse_part-with_step :
      (part : Bytes) (bits : Bits) (parts : Bytes × Bytes)
      → cut_at b'/' part ≡ some parts
      → parse_part part min max bits ≡ with_step (atoi parts.1) parts.0 min max bits
  unfolding parse_part
  parse_part-with_step part bits parts c = rw (parse_part, c)

  -- Where the values from `min` to `max` have bits and are below 2^62, parsePart returns an error or the bits, as many
  -- as it was given, and does not panic, unless the part has a step that is 2^63 - max or more.
  pub parse_part-Keeps :
      (part : Bytes) (bits : Bits)
      → max < length bits
      → Keeps bits (parse_part part min max bits) ⊎ HugeStep max part
  parse_part-Keeps part bits l = elim (Option-cases (cut_at b'/' part)) [
    | inl c ↦ inl (
        subst⁻¹ (Keeps bits) (parse_part-no_step part bits c)
          (parse_base-Keeps part 1 bits l (omega arith) (omega arith)))
    | inr c ↦ elim (with_step-Keeps (atoi c.0.1) c.0.0 bits l) [
      | inl k ↦ inl (subst⁻¹ (Keeps bits) (parse_part-with_step part bits c.0 c.1) k)
      | inr k ↦ inr (c.0, k.0, c.1, k.1, k.2)
    ]
  ]

wildcard-fuel :
    (min max step : ℕ) (bits : Bits)
    → min ≤ max
    → all_between min max step bits ≡ set_range (suc (suc (max - min))) (pos min) max step bits
wildcard-fuel min max step bits h =
    ap (λ fuel. set_range fuel (pos min) max step bits) {x = max + 2 - min}
      {y = suc (suc (max - min))} (omega arith)

-- The index wraps around to a negative one, which is in the range of the loop.
all_between-panic :
    (min max step : ℕ) (bits : Bits)
    → min ≤ max
    → max < length bits
    → 2 ^ 63 ≤ min + step
    → all_between min max step bits ≡ panic
unfolding set_range
all_between-panic min max step bits h l o =
    let inside : ltb max min ≡ false = ground arith in
    let has_bit : ltb min (length bits) ≡ true = ground arith in
    let over : ltb (min + step) (2 ^ 63) ≡ false = ground arith in
    wildcard-fuel min max step bits h ∙ rw (inside, has_bit, over) refl

-- A step that takes the first index beyond the range, and does not overflow.
all_between-once :
    (min max step : ℕ) (bits : Bits)
    → min ≤ max
    → max < length bits
    → max < min + step
    → min + step < 2 ^ 63
    → all_between min max step bits ≡ ok (set bits min true)
unfolding set_range
all_between-once min max step bits h l past o =
    let inside : ltb max min ≡ false = ground arith in
    let has_bit : ltb min (length bits) ≡ true = ground arith in
    let fits : ltb (min + step) (2 ^ 63) ≡ true = ground arith in
    let out : ltb max (min + step) ≡ true = ground arith in
    wildcard-fuel min max step bits h ∙ rw (inside, has_bit, fits, out) refl

-- For a positive step, which is an int, and values that have bits and are below 2^62: a wildcard
-- makes parsePart panic exactly if the step takes the least value to 2^63 or beyond.
pub parse_base-panic_iff :
    (min max step : ℕ) (bits : Bits)
    → min ≤ max
    → max < length bits
    → max < 2 ^ 62
    → zero < step
    → step < 2 ^ 63
    → (parse_base (codes "*") min max step bits ≡ panic) ↔ (2 ^ 63 ≤ min + step)
unfolding parse_base bytes_eq
parse_base-panic_iff min max step bits h l small s int =
    (panics, all_between-panic min max step bits h l)
  where
    panics : all_between min max step bits ≡ panic → 2 ^ 63 ≤ min + step
    panics p = elim (Bool-cases (ltb (min + step) (2 ^ 63))) [
      | inr e ↦ ground arith
      | inl e ↦ elim (Bool-cases (ltb (max + step) (2 ^ 63))) [
        | inl f ↦
            let (bits', run, _) = all_between-Sets min max step bits h l s (ground arith) in
            absurd (cc)
        | inr f ↦
            let run = all_between-once min max step bits h l (ground arith) (ground arith) in
            absurd (cc)
      ]
    ]
