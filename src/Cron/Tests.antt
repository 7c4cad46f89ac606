-- ===== src/Cron/Tests.antt =====
-- Expressions parsed and stepped, with UTC for the zone.
use wilanis_js.Common.{
  ℕ, ◌+◌, ◌*◌, ◌/◌, ◌≤◌, ◌<◌, ◌≡◌, refl, true, false, some, List, [], ◌∷◌, arith, length,
}
use wilanis_js.Types.Refs.{codes}
use wilanis_js.Cron.{
  Field, Cron, parsed, refused, parse_cron, runs_backwards, out_of_range, no_step,
}
use wilanis_js.Cron.{hour_field, day_field, minute_field}
use wilanis_js.Cron.Bounds.{IsOnClock, parse_cron-IsOnClock}
use wilanis_js.Cron.Calendar.{Wall, utc_wall}
use wilanis_js.Cron.Tick.{minute, next_tick, ticks_between, next_interval}
use wilanis_js.Cron.Tick.{intervals_between}
use wilanis_js.Cron.First.{IsNext, next_tick-first, AreTicks, ticks_between-ticks}
use wilanis_js.Cron.Interval.{multiples, next_interval-first, intervals_between-multiples}

abbrev utc : ℕ → Wall
utc at = utc_wall (at / minute)

abbrev all_days : Field
all_days = record {
  values =
      1 ∷ 2 ∷ 3 ∷ 4 ∷ 5 ∷ 6 ∷ 7 ∷ 8 ∷ 9 ∷ 10 ∷ 11 ∷ 12 ∷ 13 ∷ 14 ∷ 15 ∷ 16 ∷ 17 ∷ 18 ∷ 19 ∷ 20 ∷ 21
      ∷ 22 ∷ 23 ∷ 24 ∷ 25 ∷ 26 ∷ 27 ∷ 28 ∷ 29 ∷ 30 ∷ 31 ∷ [];
  every_value = true;
}

-- Every quarter of the hours from nine to ten, on Mondays and Sundays of the first quarter.
abbrev quarters : Cron
quarters = record {
  minute = record { values = 0 ∷ 15 ∷ 30 ∷ 45 ∷ []; every_value = true };
  hour = record { values = 9 ∷ 10 ∷ []; every_value = false };
  day = all_days;
  month = record { values = 1 ∷ 2 ∷ 3 ∷ []; every_value = false };
  weekday = record { values = 1 ∷ 0 ∷ []; every_value = false };
}

quarters_text : parse_cron " */15 9-10 * Jan-mar mon,7" ≡ parsed quarters
unfolding parse_cron
quarters_text = refl

backwards : parse_cron "0 17-9 * * *" ≡ refused (runs_backwards (codes "17-9") hour_field)
unfolding parse_cron
backwards = refl

too_late : parse_cron "0 0 32 * *" ≡ refused (out_of_range (codes "32") day_field)
unfolding parse_cron
too_late = refl

no_stride : parse_cron "*/0 0 * * *" ≡ refused (no_step (codes "*/0") minute_field)
unfolding parse_cron
no_stride = refl

parse_cron-IsOnClock_example : IsOnClock quarters
parse_cron-IsOnClock_example =
    parse_cron-IsOnClock " */15 9-10 * Jan-mar mon,7" quarters quarters_text

-- From eleven minutes past nine on Monday, the fourth of March 2024, the next is a quarter past.
abbrev monday : ℕ
monday = 1709543460000

next : next_tick utc quarters monday ≡ some (monday + 4 * minute)
unfolding next_tick
next = refl

next_tick-first_example : IsNext utc quarters monday (next_tick utc quarters monday)
next_tick-first_example = next_tick-first utc quarters monday

ticks_between-ticks_example :
    (ticks : List ℕ) × AreTicks utc quarters 2 monday (monday + 50 * minute) ticks
    × (length ticks ≡ ticks_between utc quarters monday (monday + 50 * minute) (some 2))
ticks_between-ticks_example =
    ticks_between-ticks utc quarters monday (monday + 50 * minute) (some 2)

next_interval-first_example :
    (61 < next_interval 20 61)
    × (next_interval 20 61 ≤ 61 + 20)
    × ((k : ℕ) → 61 < k * 20 → next_interval 20 61 ≤ k * 20)
next_interval-first_example = next_interval-first 20 (omega arith) 61

intervals_between-multiples_example : intervals_between 20 40 101 ≡ multiples 20 40 101 6
intervals_between-multiples_example =
    intervals_between-multiples 20 (omega arith) 40 101 6 (omega arith)
