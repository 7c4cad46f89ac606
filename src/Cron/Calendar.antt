-- ===== src/Cron/Calendar.antt =====
-- packages/plugin-schedule/src/cron.ts: a reading of a wall clock, and what the language's `Date` says of one in UTC,
-- from 1970 on.
use wilanis_js.Common.{ℕ, ◌+◌, ◌-◌, ◌*◌, ◌/◌, ◌%◌, ◌≡◌, refl, if◌then◌else◌, leb, ltb, [], ◌∷◌, map}

pub record Wall : Type 0 where
  pub year : ℕ
  pub month : ℕ
  pub day : ℕ
  pub hour : ℕ
  pub minute : ℕ
  pub weekday : ℕ

-- The days before a date, in eras of 400 years that begin on the first of March.
days_before : ℕ → ℕ → ℕ → ℕ
days_before year month day =
    let y = if leb month 2 then year - 1 else year in
    let m = if leb month 2 then month + 9 else month - 3 in
    let of_era = y % 400 in
    let of_year = (153 * m + 2) / 5 + (day - 1) in
    (y / 400) * 146097 + (of_era * 365 + of_era / 4 - of_era / 100 + of_year) - 719468

-- `Date.UTC(...) / MINUTE`
unfoldable pub utc_minutes : Wall → ℕ
unfolding days_before
utc_minutes wall = (days_before wall.year wall.month wall.day * 24 + wall.hour) * 60 + wall.minute

-- The date, with the clock at midnight, of a day.
date_of : ℕ → Wall
date_of days =
    let z = days + 719468 in
    let of_era = z % 146097 in
    let year_of_era = (of_era - of_era / 1460 + of_era / 36524 - of_era / 146096) / 365 in
    let of_year = of_era - (365 * year_of_era + year_of_era / 4 - year_of_era / 100) in
    let m = (5 * of_year + 2) / 153 in
    let month = if ltb m 10 then m + 3 else m - 9 in
    record {
      year = (z / 146097) * 400 + year_of_era + (if leb month 2 then 1 else 0);
      month = month;
      day = of_year - (153 * m + 2) / 5 + 1;
      hour = 0;
      minute = 0;
      weekday = (days + 4) % 7;
    }

-- `getUTCFullYear` and the others, of the minute that many after the epoch.
unfoldable pub utc_wall : ℕ → Wall
unfolding date_of
utc_wall minutes = record (date_of (minutes / 1440)) {
  hour = (minutes / 60) % 24;
  minute = minutes % 60;
}

leap_day :
    utc_wall 28487519
    ≡ record { year = 2024; month = 2; day = 29; hour = 23; minute = 59; weekday = 4 }
unfolding utc_wall
leap_day = refl

utc_minutes_back :
    map (λ n. utc_minutes (utc_wall n)) (0 ∷ 28487519 ∷ 28493280 ∷ 68256000 ∷ [])
    ≡ 0 ∷ 28487519 ∷ 28493280 ∷ 68256000 ∷ []
unfolding utc_minutes utc_wall
utc_minutes_back = refl
