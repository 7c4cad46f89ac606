-- ===== src/Cron/Tick.antt =====
-- packages/plugin-schedule/src/cron.ts: the instants that an expression names, in milliseconds. What an
-- instant reads as in a zone is the zone's: the `clock` of each definition.
use wilanis_js.Common.{
  ℕ, zero, suc, ◌+◌, ◌-◌, ◌*◌, ◌/◌, Bool, false, not, ◌&&◌, ◌||◌, Option, none, some,
}
use wilanis_js.Common.{if◌then◌else◌, ltb, leb, nat_eq}
use wilanis_js.Cron.{Cron, has_value}
use wilanis_js.Cron.Calendar.{Wall, utc_minutes, utc_wall}

-- MINUTE
abbrev pub minute : ℕ
minute = 60000

-- HORIZON
abbrev pub horizon : ℕ
horizon = 2108160

unfoldable pub matches : Cron → Wall → Bool
matches cron wall =
    let day = has_value cron.day.values wall.day in
    let weekday = has_value cron.weekday.values wall.weekday in
    has_value cron.minute.values wall.minute
    && has_value cron.hour.values wall.hour
    && has_value cron.month.values wall.month
    && (if not cron.day.every_value && not cron.weekday.every_value
        then day || weekday
        else (cron.day.every_value || day) && (cron.weekday.every_value || weekday))

unfoldable pub same_minute : Wall → Wall → Bool
same_minute one other =
    nat_eq one.year other.year
    && nat_eq one.month other.month
    && nat_eq one.day other.day
    && nat_eq one.hour other.hour
    && nat_eq one.minute other.minute

-- The loop of `repeated`: some of so many minutes before an instant reads as this.
unfoldable pub read_before : (ℕ → Wall) → ℕ → ℕ → Wall → Bool
unfolding same_minute
read_before clock zero at wall = false
read_before clock (suc left) at wall =
    same_minute (clock (at - minute)) wall || read_before clock left (at - minute) wall

unfoldable pub repeated : (ℕ → Wall) → ℕ → Wall → Bool
unfolding read_before
repeated clock at wall = read_before clock 120 at wall

-- The loop of `namedInGap`, from a minute on.
unfoldable pub named_from : Cron → ℕ → ℕ → ℕ → Bool
unfolding matches utc_wall
named_from cron zero at to = false
named_from cron (suc left) at to =
    ltb at to && (matches cron (utc_wall at) || named_from cron left (at + 1) to)

unfoldable pub named_in_gap : Cron → Wall → Wall → Bool
unfolding named_from utc_minutes
named_in_gap cron before after = named_from cron 120 (utc_minutes before + 1) (utc_minutes after)

-- Whether one pass of the search stops, given what the minute before read as.
unfoldable pub stops_at : (ℕ → Wall) → Cron → Wall → ℕ → Bool
unfolding named_in_gap matches repeated utc_minutes
stops_at clock cron previous at =
    (ltb (utc_minutes previous + 1) (utc_minutes (clock at))
      && named_in_gap cron previous (clock at))
    || (matches cron (clock at) && not (repeated clock at (clock at)))

-- The loop of `nextTick`.
unfoldable pub search_from : (ℕ → Wall) → Cron → ℕ → ℕ → Wall → Option ℕ
unfolding stops_at
search_from clock cron zero at previous = none
search_from clock cron (suc steps) at previous =
    let later = search_from clock cron steps (at + minute) (clock at) in
    if stops_at clock cron previous at then some at else later

abbrev pub first_minute : ℕ → ℕ
first_minute after = (after / minute) * minute + minute

-- `nextTick`
unfoldable pub next_tick : (ℕ → Wall) → Cron → ℕ → Option ℕ
unfolding search_from
next_tick clock cron after =
    search_from clock cron horizon (first_minute after) (clock (first_minute after - minute))

-- The loop of `ticksBetween`, with so many ticks still worth counting.
unfoldable pub ticks_from : (ℕ → Wall) → Cron → ℕ → ℕ → ℕ → ℕ
unfolding next_tick
ticks_from clock cron zero at to = 0
ticks_from clock cron (suc left) at to = elim (next_tick clock cron at) [
  | none ↦ 0
  | some next ↦ if leb to next then 0 else suc (ticks_from clock cron left next to)
]

abbrev pub ceiling_or : Option ℕ → ℕ
ceiling_or none = 1000
ceiling_or (some ceiling) = ceiling

-- `ticksBetween`
unfoldable pub ticks_between : (ℕ → Wall) → Cron → ℕ → ℕ → Option ℕ → ℕ
unfolding ticks_from
ticks_between clock cron from to ceiling = ticks_from clock cron (ceiling_or ceiling) from to

-- `nextInterval`
unfoldable pub next_interval : ℕ → ℕ → ℕ
next_interval every_ms after = (after / every_ms + 1) * every_ms

-- `Math.ceil` of a quotient.
abbrev pub ceil : ℕ → ℕ → ℕ
ceil n every_ms = (n + (every_ms - 1)) / every_ms

-- `intervalsBetween`
unfoldable pub intervals_between : ℕ → ℕ → ℕ → ℕ
intervals_between every_ms from to = ceil to every_ms - from / every_ms - 1
