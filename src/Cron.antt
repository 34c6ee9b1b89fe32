-- ===== src/Cron.antt =====
-- kailab-control/internal/cron/cron.go: the parser of cron expressions and the match of a time. An
-- int has 64 bits. Strings are lists of characters.
pub mod Ranges
pub mod Safety
pub mod Schedules
mod Tests
use kai_server.Common.Ints.{ℤ, pos, negsuc}
use kai_server.Common.{
  ℕ, zero, suc, ◌+◌, ◌-◌, ◌*◌, ◌^◌, Bool, true, false, ◌&&◌, ◌||◌, not, Option, none, some, List,
  [], ◌∷◌, ◌++◌, if◌then◌else◌, ltb, leb, ◌==◌, length, get_elem?, set, replicate, Result, ok, err,
  panic, stuck, ◌>>=◌,
}
use kai_server.Common.Bytes.{Bytes, bytes_eq, codes}

pub data CronError : Type 0 where
  field_count invalid_step invalid_start invalid_end out_of_bounds invalid_value : CronError

abbrev pub int_less : ℤ → ℤ → Bool
int_less (pos a) (pos b) = ltb a b
int_less (pos a) (negsuc b) = false
int_less (negsuc a) (pos b) = true
int_less (negsuc a) (negsuc b) = ltb b a

abbrev pub digit : ℕ → Option ℕ
digit c = if leb b'0' c && leb c b'9' then some (c - b'0') else none

abbrev pub add_digit : ℕ → Option ℕ → Option ℕ
add_digit n none = none
add_digit n (some d) = some (n * 10 + d)

abbrev pub digits : Option ℕ → Bytes → Option ℕ
digits none cs = none
digits (some n) [] = some n
digits (some n) (c ∷ cs) = digits (add_digit n (digit c)) cs

-- at least one digit
abbrev pub magnitude : Bytes → Option ℕ
magnitude [] = none
magnitude (c ∷ cs) = digits (some 0) (c ∷ cs)

abbrev pub negate : ℕ → ℤ
negate zero = pos 0
negate (suc n) = negsuc n

abbrev pub in_range : Bool → Option ℕ → Option ℤ
in_range minus none = none
in_range false (some n) = if ltb n (2 ^ 63) then some (pos n) else none
in_range true (some n) = if leb n (2 ^ 63) then some (negate n) else none

-- strconv.Atoi
unfoldable pub atoi : Bytes → Option ℤ
atoi [] = none
atoi (c ∷ cs) =
    if c == b'-'
    then in_range true (magnitude cs)
    else if c == b'+'
    then in_range false (magnitude cs)
    else in_range false (magnitude (c ∷ cs))

-- strings.Index of a character: what stands before and behind it
unfoldable pub cut_at : ℕ → Bytes → Option (Bytes × Bytes)
cut_at sep [] = none
cut_at sep (c ∷ cs) =
    let rest = cut_at sep cs in
    if c == sep
    then some ([], cs)
    else elim rest [ none ↦ none | some parts ↦ some (c ∷ parts.0, parts.1) ]

abbrev pub Bits : Type 0
Bits = List Bool

-- bits[i] = true
abbrev pub set_bit : ℕ → Bits → Result CronError Bits
set_bit i bits = if ltb i (length bits) then ok (set bits i true) else panic

-- bits[i] = true for an int, which panics below zero
abbrev pub set_index : ℤ → Bits → Result CronError Bits
set_index (pos i) bits = set_bit i bits
set_index (negsuc i) bits = panic

-- The int of a sum below 2^64: it wraps around at 2^63.
abbrev pub wrap : ℕ → ℤ
wrap n = if ltb n (2 ^ 63) then pos n else negsuc (2 ^ 64 - suc n)

-- i + step for a step that is not negative
abbrev pub add_int : ℤ → ℕ → ℤ
add_int (pos i) step = wrap (i + step)
add_int (negsuc i) step = if leb step i then negsuc (i - step) else pos (step - suc i)

-- for i := i; i <= hi; i += step
unfoldable pub set_range : ℕ → ℤ → ℕ → ℕ → Bits → Result CronError Bits
set_range zero i hi step bits = if int_less (pos hi) i then ok bits else stuck
set_range (suc fuel) i hi step bits =
    if int_less (pos hi) i
    then ok bits
    else (do bits' ← set_index i bits; set_range fuel (add_int i step) hi step bits')

-- A step takes i on by one at least, or makes it negative, which ends the next round.
abbrev pub all_between : ℕ → ℕ → ℕ → Bits → Result CronError Bits
all_between lo hi step bits = set_range (hi + 2 - lo) (pos lo) hi step bits

-- The test of a range, and the loop. Of two bounds that pass it neither is negative.
abbrev pub checked_range : ℤ → ℤ → ℕ → ℕ → ℕ → Bits → Result CronError Bits
checked_range (pos lo) (pos hi) min max step bits =
    if ltb lo min || ltb max hi || ltb hi lo then err out_of_bounds else all_between lo hi step bits
checked_range lo hi min max step bits =
    if int_less lo (pos min) || int_less (pos max) hi || int_less hi lo
    then err out_of_bounds
    else panic

abbrev pub range_ends : Option ℤ → Option ℤ → ℕ → ℕ → ℕ → Bits → Result CronError Bits
range_ends none hi min max step bits = err invalid_start
range_ends (some lo) none min max step bits = err invalid_end
range_ends (some lo) (some hi) min max step bits = checked_range lo hi min max step bits

abbrev pub single_value : Option ℤ → ℕ → ℕ → Bits → Result CronError Bits
single_value none min max bits = err invalid_value
single_value (some (negsuc n)) min max bits = err out_of_bounds
single_value (some (pos n)) min max bits =
    if ltb n min || ltb max n then err out_of_bounds else set_bit n bits

-- parsePart behind the step
unfoldable pub parse_base : Bytes → ℕ → ℕ → ℕ → Bits → Result CronError Bits
unfolding set_range atoi cut_at bytes_eq
parse_base part min max step bits =
    if bytes_eq part (codes "*") then all_between min max step bits else elim (cut_at b'-' part) [
      | none ↦ single_value (atoi part) min max bits
      | some ends ↦ range_ends (atoi ends.0) (atoi ends.1) min max step bits
    ]

abbrev pub with_step : Option ℤ → Bytes → ℕ → ℕ → Bits → Result CronError Bits
with_step (some (pos (suc n))) part min max bits = parse_base part min max (suc n) bits
with_step _ part min max bits = err invalid_step

unfoldable pub parse_part : Bytes → ℕ → ℕ → Bits → Result CronError Bits
unfolding parse_base
parse_part part min max bits = elim (cut_at b'/' part) [
  | none ↦ parse_base part min max 1 bits
  | some parts ↦ with_step (atoi parts.1) parts.0 min max bits
]

-- strings.Split at a character, a part being read into `part`
unfoldable pub split_at : ℕ → Bytes → Bytes → List Bytes
split_at sep part [] = part ∷ []
split_at sep part (c ∷ cs) =
    if c == sep then part ∷ split_at sep [] cs else split_at sep (part ++ (c ∷ [])) cs

unfoldable pub parse_parts : List Bytes → ℕ → ℕ → Bits → Result CronError Bits
unfolding parse_part
parse_parts [] min max bits = ok bits
parse_parts (part ∷ parts) min max bits = do
  bits' ← parse_part part min max bits
  parse_parts parts min max bits'

unfoldable pub parse_field : Bytes → Bits → ℕ → ℕ → Result CronError Bits
unfolding parse_parts split_at
parse_field field bits min max = parse_parts (split_at b',' [] field) min max bits

-- unicode.IsSpace
abbrev pub is_space : ℕ → Bool
is_space c =
    (leb 9 c && leb c 13)
    || (c == 32
        || (c == 133
            || (c == 160
                || (c == 5760
                    || ((leb 8192 c && leb c 8202)
                        || (c == 8232
                            || (c == 8233 || (c == 8239 || (c == 8287 || c == 12288)))))))))

abbrev pub add_word : Bytes → List Bytes → List Bytes
add_word [] words = words
add_word (c ∷ cs) words = (c ∷ cs) ∷ words

-- strings.Fields, which needs no TrimSpace before
unfoldable pub words : Bytes → Bytes → List Bytes
words word [] = add_word word []
words word (c ∷ cs) =
    if is_space c then add_word word (words [] cs) else words (word ++ (c ∷ [])) cs

pub record Schedule : Type 0 where
  pub minutes : Bits
  pub hours : Bits
  pub days_of_month : Bits
  pub months : Bits
  pub days_of_week : Bits

abbrev pub parse_five : Bytes → Bytes → Bytes → Bytes → Bytes → Result CronError Schedule
parse_five minute hour day month weekday = do
  minutes' ← parse_field minute (replicate 60 false) 0 59
  hours' ← parse_field hour (replicate 24 false) 0 23
  days' ← parse_field day (replicate 32 false) 1 31
  months' ← parse_field month (replicate 13 false) 1 12
  weekdays' ← parse_field weekday (replicate 7 false) 0 6
  ok (record {
    minutes = minutes';
    hours = hours';
    days_of_month = days';
    months = months';
    days_of_week = weekdays';
  })

abbrev pub parse_words : List Bytes → Result CronError Schedule
parse_words (minute ∷ hour ∷ day ∷ month ∷ weekday ∷ []) = parse_five minute hour day month weekday
parse_words _ = err field_count

unfoldable pub parse : Bytes → Result CronError Schedule
unfolding words parse_field
parse expr = parse_words (words [] expr)

-- what Match reads of a time
pub record Time : Type 0 where
  pub minute : ℕ
  pub hour : ℕ
  pub day : ℕ
  pub month : ℕ
  pub weekday : ℕ

abbrev pub bit_or_panic : Option Bool → Result CronError Bool
bit_or_panic none = panic
bit_or_panic (some b) = ok b

abbrev pub and_bit : Result CronError Bool → Result CronError Bool → Result CronError Bool
and_bit (ok true) next = next
and_bit first next = first

unfoldable pub match_time : Schedule → Time → Result CronError Bool
match_time s t = and_bit (bit_or_panic (get_elem? s.minutes t.minute)) (
    and_bit (bit_or_panic (get_elem? s.hours t.hour)) (
      and_bit (bit_or_panic (get_elem? s.days_of_month t.day)) (
        and_bit (bit_or_panic (get_elem? s.months t.month))
          (bit_or_panic (get_elem? s.days_of_week t.weekday)))))
