-- ===== src/Cron/Ranges.antt =====
-- cron.go, the loop of parsePart over a range: which bits it sets.
use native.Mathlib.Nat.{mod-eq_of_lt, mod-eq-sub-mod, zero-mod}
use mathlib.Core.Path.{subst}
use kai_server.Common.{
  ℕ, zero, suc, ◌+◌, ◌-◌, ◌%◌, ◌^◌, ◌≤◌, ◌<◌, ◌≡◌, ◌≢◌, refl, sym, ap, ◌∙◌, arith, Bool, true,
  false, ◌&&◌, ◌||◌, ltb, leb, ◌==◌, length, get_or, set, length-set, get_or-set_self,
  get_or-set_ne, ok, Bool-cases, inl, inr, ==_iff,
}
use kai_server.Common.Ints.{pos}
use kai_server.Cron.{Bits, set_range, all_between}

-- j is one of i, i + step, i + 2 * step, … up to hi.
abbrev pub in_progression : ℕ → ℕ → ℕ → ℕ → Bool
in_progression i hi step j = (leb i j && leb j hi) && ((j - i) % step == 0)

-- The bits of the progression are set, the others as before.
abbrev pub Sets : ℕ → ℕ → ℕ → Bits → Bits → Type 0
Sets i hi step bits bits' =
    (length bits' ≡ length bits)
    × ((j : ℕ)
        → j < length bits
        → get_or bits' j false ≡ get_or bits j false || in_progression i hi step j)

and_false_mid : (a b c : Bool) → a && b ≡ false → (a && b) && c ≡ false
and_false_mid a b c h = rw h

past_end : (i hi step j : ℕ) → hi < i → in_progression i hi step j ≡ false
past_end i hi step j h = and_false_mid (leb i j) (leb j hi) ((j - i) % step == 0) (ground arith)

mod_step : (i j step : ℕ) → i + step ≤ j → (j - i) % step ≡ (j - (i + step)) % step
mod_step i j step h =
    mod-eq-sub-mod {n = j - i} {m = step} (omega arith)
    ∙ ap (λ n. n % step) {x = j - i - step} {y = j - (i + step)} (omega arith)

first_of : (i hi step : ℕ) → i ≤ hi → in_progression i hi step i ≡ true
first_of i hi step h =
    let none_over : (i - i) % step ≡ zero =
      ap (λ n. n % step) {x = i - i} {y = zero} (omega arith) ∙ zero-mod step in
    let inside : leb i i && leb i hi ≡ true = ground arith in rw (inside, none_over)

between_steps : (i hi step j : ℕ) → i < j → j < i + step → in_progression i hi step j ≡ false
between_steps i hi step j h k =
    let rest : (j - i) % step ≡ j - i = mod-eq_of_lt {n = j - i} (omega arith) in
    let over : (j - i == 0) ≡ false = ground arith in
    rw (rest, over) (elim (Bool-cases (leb i j && leb j hi)) [ inl e ↦ rw e | inr e ↦ rw e ])

before_start : (i hi step j : ℕ) → j < i → in_progression i hi step j ≡ false
before_start i hi step j h = and_false_mid (leb i j) (leb j hi) ((j - i) % step == 0) (ground arith)

progression_step :
    (i hi step j : ℕ)
    → i ≤ hi
    → zero < step
    → i ≢ j
    → in_progression i hi step j ≡ in_progression (i + step) hi step j
progression_step i hi step j h s ne = elim (Bool-cases (ltb j i)) [
  | inl e ↦
      before_start i hi step j (ground arith)
      ∙ sym (before_start (i + step) hi step j (ground arith))
  | inr e ↦ elim (Bool-cases (ltb j (i + step))) [
    | inl k ↦
        between_steps i hi step j (ground arith) (ground arith)
        ∙ sym (before_start (i + step) hi step j (ground arith))
    | inr k ↦
        let from : leb i j ≡ true = ground arith in
        let from_next : leb (i + step) j ≡ true = ground arith in
        rw (from, from_next, mod_step i j step (ground arith))
  ]
]

or_false : (b : Bool) → b ≡ b || false
or_false true = refl
or_false false = refl

or_true : (b : Bool) → true ≡ b || true
or_true true = refl
or_true false = refl

nothing_set : (i hi step : ℕ) (bits : Bits) → hi < i → Sets i hi step bits bits
nothing_set i hi step bits h =
    (refl, λ j lt. rw (past_end i hi step j h) (or_false (get_or bits j false)))

set_first :
    (i hi step : ℕ) (bits bits' : Bits)
    → i ≤ hi
    → i < length bits
    → zero < step
    → Sets (i + step) hi step (set bits i true) bits'
    → Sets i hi step bits bits'
set_first i hi step bits bits' h l s (len, sets) = (len ∙ length-set bits i true, λ j lt. bit j lt)
  where
    first : get_or bits' i false ≡ get_or bits i false || in_progression i hi step i
    first =
        sets i (omega (arith, length-set bits i true))
        ∙ rw (get_or-set_self bits i true false l, first_of i hi step h)
            (or_true (get_or bits i false))

    bit :
        (j : ℕ)
        → j < length bits
        → get_or bits' j false ≡ get_or bits j false || in_progression i hi step j
    bit j lt =
        let later = sets j (omega (arith, length-set bits i true)) in
        elim (Bool-cases (i == j)) [
          | inl e ↦
              subst (λ k. get_or bits' k false ≡ get_or bits k false || in_progression i hi step k)
                ((==_iff i j).0 e) first
          | inr e ↦
              let apart : i ≢ j = λ q. absurd (ground arith) in
              later
              ∙ rw (get_or-set_ne bits i j true false apart, progression_step i hi step j h s apart)
        ]

set_range-Sets :
    (fuel i hi step : ℕ) (bits : Bits)
    → hi + 1 ≤ i + fuel
    → hi < length bits
    → zero < step
    → hi + step < 2 ^ 63
    → (bits' : Bits) × (set_range fuel (pos i) hi step bits ≡ ok bits') × Sets i hi step bits bits'
unfolding set_range
set_range-Sets zero i hi step bits f l s o =
    let out : ltb hi i ≡ true = ground arith in
    (bits, rw out, nothing_set i hi step bits (omega arith))
set_range-Sets (suc fuel) i hi step bits f l s o = elim (Bool-cases (ltb hi i)) [
  | inr e ↦
      let inside : ltb i (length bits) ≡ true = ground arith in
      let fits : ltb (i + step) (2 ^ 63) ≡ true = ground arith in
      let (bits', run, sets) =
        set_range-Sets fuel (i + step) hi step (set bits i true) (omega arith)
          (omega (arith, length-set bits i true)) s o in
      (
        bits',
        rw (e, inside, fits) run,
        set_first i hi step bits bits' (ground arith) (ground arith) s sets,
      )
  | inl e ↦ (bits, rw e, nothing_set i hi step bits (ground arith))
]

-- For 0 < step, a range that ends inside the bits and a step that does not overflow, the loop ends
-- and sets the bits of the progression and no other.
pub all_between-Sets :
    (lo hi step : ℕ) (bits : Bits)
    → lo ≤ hi
    → hi < length bits
    → zero < step
    → hi + step < 2 ^ 63
    → (bits' : Bits) × (all_between lo hi step bits ≡ ok bits') × Sets lo hi step bits bits'
all_between-Sets lo hi step bits h l s o =
    set_range-Sets (hi + 2 - lo) lo hi step bits (omega arith) l s o
