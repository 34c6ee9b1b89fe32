-- ===== src/Cron/Schedules.antt =====
-- cron.go, Parse and Match: the slices of a schedule, and the times that they have bits for.
use mathlib.Core.Path.{subst}
use kai_server.Common.Ints.{ℤ, pos, negsuc}
use kai_server.Common.{
  ℕ, zero, suc, ◌+◌, ◌-◌, ◌<◌, ◌≡◌, refl, ap, ◌∙◌, arith, Bool, true, false, ◌||◌, Option, none,
  some, List, [], ◌∷◌, if◌then◌else◌, ltb, length, get_elem?, set, length-set, length-replicate,
  replicate, Result, ok, err, panic, ok-bind,
}
use kai_server.Common.Bytes.{Bytes, bytes_eq, codes}
use kai_server.Cron.{
  CronError, out_of_bounds, Bits, int_less, set_bit, set_index, add_int, set_range, checked_range,
  range_ends, single_value, atoi, cut_at, split_at, parse_base, with_step, parse_part, parse_parts,
  parse_field, parse_words, parse_five, parse, words, Schedule, Time, match_time, bit_or_panic,
  and_bit,
}

abbrev Same : Bits → Result CronError Bits → Type 0
Same bits r = (bits' : Bits) → r ≡ ok bits' → length bits' ≡ length bits

either-Same :
    (t : Bool) (bits : Bits) (r s : Result CronError Bits)
    → Same bits r
    → Same bits s
    → Same bits (if t then r else s)
either-Same true bits r s h k = h
either-Same false bits r s h k = k

ok-Same : (bits : Bits) → Same bits (ok bits)
ok-Same bits bits' e = ap length {x = bits'} {y = bits} (cc)

set_bit-Same : (i : ℕ) (bits : Bits) → Same bits (set_bit i bits)
set_bit-Same i bits =
    either-Same (ltb i (length bits)) bits _ _
      (λ bits' e. ap length {x = bits'} {y = set bits i true} (cc) ∙ length-set bits i true)
      (λ bits' e. absurd (cc))

set_index-Same : (i : ℤ) (bits : Bits) → Same bits (set_index i bits)
set_index-Same (pos i) bits = set_bit-Same i bits
set_index-Same (negsuc i) bits = λ bits' e. absurd (cc)

set_range-Same :
    (fuel : ℕ) (i : ℤ) (hi step : ℕ) (bits : Bits) → Same bits (set_range fuel i hi step bits)
unfolding set_range
set_range-Same zero i hi step bits =
    either-Same (int_less (pos hi) i) bits _ _ (ok-Same bits) (λ b e. absurd (cc))
set_range-Same (suc fuel) i hi step bits =
    either-Same (int_less (pos hi) i) bits _ _ (ok-Same bits) (λ bits' e.
      let (mid, first, rest) = ok-bind (set_index i bits) _ bits' e in
      set_range-Same fuel (add_int i step) hi step mid bits' rest ∙ set_index-Same i bits mid first)

single_value-Same :
    (v : Option ℤ) (min max : ℕ) (bits : Bits) → Same bits (single_value v min max bits)
single_value-Same none min max bits = λ b e. absurd (cc)
single_value-Same (some (negsuc n)) min max bits = λ b e. absurd (cc)
single_value-Same (some (pos n)) min max bits =
    either-Same (ltb n min || ltb max n) bits _ _ (λ b e. absurd (cc)) (set_bit-Same n bits)

checked_range-Same :
    (lo hi : ℤ) (min max step : ℕ) (bits : Bits) → Same bits (checked_range lo hi min max step bits)
checked_range-Same (pos lo) (pos hi) min max step bits =
    either-Same _ bits (err out_of_bounds) _ (λ b e. absurd (cc))
      (set_range-Same (hi + 2 - lo) (pos lo) hi step bits)
checked_range-Same (pos lo) (negsuc hi) min max step bits =
    either-Same _ bits (err out_of_bounds) panic (λ b e. absurd (cc)) (λ b e. absurd (cc))
checked_range-Same (negsuc lo) hi min max step bits = λ b e. absurd (cc)

range_ends-Same :
    (lo hi : Option ℤ) (min max step : ℕ) (bits : Bits)
    → Same bits (range_ends lo hi min max step bits)
range_ends-Same none hi min max step bits = λ b e. absurd (cc)
range_ends-Same (some lo) none min max step bits = λ b e. absurd (cc)
range_ends-Same (some lo) (some hi) min max step bits = checked_range-Same lo hi min max step bits

ends-Same :
    (part : Bytes) (o : Option (Bytes × Bytes)) (min max step : ℕ) (bits : Bits)
    → Same bits (elim o [
      | none ↦ single_value (atoi part) min max bits
      | some ends ↦ range_ends (atoi ends.0) (atoi ends.1) min max step bits
    ])
ends-Same part none min max step bits = single_value-Same (atoi part) min max bits
ends-Same part (some ends) min max step bits =
    range_ends-Same (atoi ends.0) (atoi ends.1) min max step bits

parse_base-Same :
    (part : Bytes) (min max step : ℕ) (bits : Bits) → Same bits (parse_base part min max step bits)
unfolding parse_base
parse_base-Same part min max step bits =
    either-Same (bytes_eq part (codes "*")) bits _ _
      (set_range-Same (max + 2 - min) (pos min) max step bits)
      (ends-Same part (cut_at b'-' part) min max step bits)

with_step-Same :
    (step : Option ℤ) (part : Bytes) (min max : ℕ) (bits : Bits)
    → Same bits (with_step step part min max bits)
with_step-Same none part min max bits = λ b e. absurd (cc)
with_step-Same (some (negsuc n)) part min max bits = λ b e. absurd (cc)
with_step-Same (some (pos zero)) part min max bits = λ b e. absurd (cc)
with_step-Same (some (pos (suc n))) part min max bits = parse_base-Same part min max (suc n) bits

steps-Same :
    (part : Bytes) (o : Option (Bytes × Bytes)) (min max : ℕ) (bits : Bits)
    → Same bits (elim o [
      | none ↦ parse_base part min max 1 bits
      | some parts ↦ with_step (atoi parts.1) parts.0 min max bits
    ])
steps-Same part none min max bits = parse_base-Same part min max 1 bits
steps-Same part (some parts) min max bits = with_step-Same (atoi parts.1) parts.0 min max bits

parse_parts-Same :
    (parts : List Bytes) (min max : ℕ) (bits : Bits) → Same bits (parse_parts parts min max bits)
unfolding parse_parts parse_part
parse_parts-Same [] min max bits = ok-Same bits
parse_parts-Same (part ∷ parts) min max bits = λ bits' e.
    let (mid, first, rest) = ok-bind (parse_part part min max bits) _ bits' e in
    parse_parts-Same parts min max mid bits' rest
    ∙ steps-Same part (cut_at b'/' part) min max bits mid first

-- The slices of a schedule have the lengths that Parse makes.
abbrev pub IsValid : Schedule → Type 0
IsValid s =
    (length s.minutes ≡ 60)
    × (length s.hours ≡ 24)
    × (length s.days_of_month ≡ 32)
    × (length s.months ≡ 13)
    × (length s.days_of_week ≡ 7)

parse_field-length :
    (field : Bytes) (n min max : ℕ) (bits : Bits)
    → parse_field field (replicate n false) min max ≡ ok bits
    → length bits ≡ n
unfolding parse_field
parse_field-length field n min max bits e =
    parse_parts-Same (split_at b',' [] field) min max (replicate n false) bits e
    ∙ length-replicate n false

ok-IsValid :
    (made s : Schedule) (r : Result CronError Schedule)
    → r ≡ ok made
    → r ≡ ok s
    → IsValid made
    → IsValid s
ok-IsValid made s r h k v = subst IsValid (cc) v

parse_five-IsValid :
    (minute hour day month weekday : Bytes) (s : Schedule)
    → parse_five minute hour day month weekday ≡ ok s
    → IsValid s
parse_five-IsValid minute hour day month weekday s e =
    let (m, hm, em) = ok-bind (parse_field minute (replicate 60 false) 0 59) _ s e in
    let (h, hh, eh) = ok-bind (parse_field hour (replicate 24 false) 0 23) _ s em in
    let (d, hd, ed) = ok-bind (parse_field day (replicate 32 false) 1 31) _ s eh in
    let (o, ho, eo) = ok-bind (parse_field month (replicate 13 false) 1 12) _ s ed in
    let (w, hw, ew) = ok-bind (parse_field weekday (replicate 7 false) 0 6) _ s eo in
    ok-IsValid _ s _ refl ew (
      parse_field-length minute 60 0 59 m hm,
      parse_field-length hour 24 0 23 h hh,
      parse_field-length day 32 1 31 d hd,
      parse_field-length month 13 1 12 o ho,
      parse_field-length weekday 7 0 6 w hw,
    )

parse-IsValid : (expr : Bytes) (s : Schedule) → parse expr ≡ ok s → IsValid s
unfolding parse
parse-IsValid expr s e = words_valid (words [] expr) e
  where
    words_valid : (ws : List Bytes) → parse_words ws ≡ ok s → IsValid s
    words_valid (minute ∷ hour ∷ day ∷ month ∷ weekday ∷ []) e =
        parse_five-IsValid minute hour day month weekday s e
    words_valid _ e = absurd (cc)

-- what the time package gives
abbrev pub IsTime : Time → Type 0
IsTime t = (t.minute < 60) × (t.hour < 24) × (t.day < 32) × (t.month < 13) × (t.weekday < 7)

get_elem?-some : (bits : Bits) (i : ℕ) → i < length bits → (b : Bool) × (get_elem? bits i ≡ some b)
get_elem?-some [] i h = elim h [ ]
get_elem?-some (b ∷ bits) zero h = (b, refl)
get_elem?-some (b ∷ bits) (suc i) h = get_elem?-some bits i (omega arith)

abbrev Answers : Result CronError Bool → Type 0
Answers r = (b : Bool) × (r ≡ ok b)

and_bit-Answers :
    (bits : Bits) (i : ℕ) (next : Result CronError Bool)
    → i < length bits
    → Answers next
    → Answers (and_bit (bit_or_panic (get_elem? bits i)) next)
and_bit-Answers bits i next h (c, k) = let (b, found) = get_elem?-some bits i h in rw found (both b)
  where
    both : (b : Bool) → Answers (and_bit (ok b) next)
    both true = (c, k)
    both false = (false, refl)

-- A schedule that Parse returns answers Match for every time, without an index out of range.
pub match_time-parse :
    (expr : Bytes) (s : Schedule) (t : Time)
    → parse expr ≡ ok s
    → IsTime t
    → (b : Bool) × (match_time s t ≡ ok b)
unfolding match_time
match_time-parse expr s t e (tm, th, td, to, tw) =
    let (m, h, d, o, w) = parse-IsValid expr s e in
    let (b, found) = get_elem?-some s.days_of_week t.weekday (omega arith) in
    and_bit-Answers s.minutes t.minute _ (omega arith) (
      and_bit-Answers s.hours t.hour _ (omega arith) (
        and_bit-Answers s.days_of_month t.day _ (omega arith)
          (and_bit-Answers s.months t.month _ (omega arith) (b, rw found))))
