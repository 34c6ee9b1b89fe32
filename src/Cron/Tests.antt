-- ===== src/Cron/Tests.antt =====
-- Runs of the cron parser, and its theorems at concrete inputs.
use kai_server.Common.{
  ◌↔◌, ◌^◌, ◌+◌, ◌≤◌, ◌≡◌, refl, arith, Bool, true, false, [], ◌∷◌, replicate, ok, err, panic,
}
use kai_server.Common.Bytes.{bytes_eq, codes}
use kai_server.Cron.{
  Bits, field_count, invalid_step, atoi, cut_at, split_at, set_range, all_between, parse_base,
  parse_part, parse_parts, parse_field, words, Schedule, parse, Time, match_time,
}
use kai_server.Cron.Ranges.{Sets, all_between-Sets}
use kai_server.Cron.Safety.{parse_base-panic_iff}
use kai_server.Cron.Schedules.{match_time-parse}

-- every second weekday from Monday on
weekdays :
    parse_part (codes "1-5/2") 0 6 (replicate 7 false)
    ≡ ok (false ∷ true ∷ false ∷ true ∷ false ∷ true ∷ false ∷ [])
unfolding parse_part parse_base set_range atoi cut_at bytes_eq
weekdays = refl

no_step : parse_part (codes "*/0") 0 6 (replicate 7 false) ≡ err invalid_step
unfolding parse_part parse_base set_range atoi cut_at bytes_eq
no_step = refl

four_fields : parse (codes "* * * *") ≡ err field_count
unfolding parse words
four_fields = refl

-- A day of the month steps over the largest int.
overflow : parse_part (codes "*/9223372036854775807") 1 31 (replicate 32 false) ≡ panic
unfolding parse_part parse_base set_range atoi cut_at bytes_eq
overflow = refl

abbrev no_bits : Bits
no_bits = replicate 7 false

all_between-Sets_example :
    (bits : Bits) × (all_between 1 5 2 (replicate 7 false) ≡ ok bits)
    × Sets 1 5 2 (replicate 7 false) bits
all_between-Sets_example =
    all_between-Sets 1 5 2 (replicate 7 false) (omega arith) (omega arith) (omega arith)
      (omega arith)

parse_base-panic_iff_example :
    (parse_base (codes "*") 1 31 9223372036854775807 (replicate 32 false) ≡ panic)
    ↔ (2 ^ 63 ≤ 1 + 9223372036854775807)
parse_base-panic_iff_example =
    parse_base-panic_iff 1 31 9223372036854775807 (replicate 32 false) (omega arith) (omega arith)
      (omega arith) (omega arith) (omega arith)

abbrev midnight : Time
midnight = record { minute = 0; hour = 0; day = 1; month = 1; weekday = 0 }

abbrev every_minute : Schedule
every_minute = record {
  minutes = replicate 60 true;
  hours = replicate 24 true;
  days_of_month = false ∷ replicate 31 true;
  months = false ∷ replicate 12 true;
  days_of_week = replicate 7 true;
}

match_time-parse_example : (b : Bool) × (match_time every_minute midnight ≡ ok b)
unfolding parse words parse_field parse_parts parse_part parse_base set_range cut_at split_at
    bytes_eq
match_time-parse_example =
    match_time-parse (codes "* * * * *") every_minute midnight refl
      (omega arith, omega arith, omega arith, omega arith, omega arith)
