-- ===== src/Cron/Fires.antt =====
-- packages/plugin-schedule/src/cron.ts: the instants at which a schedule is to fire, as the comment of `nextTick`
-- tells them, and the tests of its loop.
use mathlib.Core.Path.{subst}
use wilanis_js.Common.{
  ℕ, zero, suc, ◌+◌, ◌-◌, ◌*◌, ◌≤◌, ◌<◌, ◌≡◌, sym, Bool, true, false, arith, ◌⊎◌, inl, inr, ltb,
  nat_eq, ◌&&◌, ◌||◌, not, Bool-cases,
}
use wilanis_js.Cron.{Cron, has_value}
use wilanis_js.Cron.Calendar.{Wall, utc_minutes, utc_wall}
use wilanis_js.Cron.Tick.{
  minute, matches, same_minute, read_before, repeated, named_from, named_in_gap, stops_at,
}

both : (a b c : Bool) → a ≡ true → (b ≡ true) ⊎ (c ≡ true) → (a && (b || c)) ≡ true
both a b c h either = ground arith

either_way :
    (a b c d : Bool) → ((a && b) || (c && not d)) ≡ true → (b ≡ true) ⊎ ((c ≡ true) × (d ≡ false))
either_way a b c d h = ground arith

one_way :
    (a b c d : Bool)
    → ((a ≡ true) × (b ≡ true)) ⊎ ((c ≡ true) × (d ≡ false))
    → ((a && b) || (c && not d)) ≡ true
one_way a b c d h = ground arith

ltb-true : (a b : ℕ) → a < b → ltb a b ≡ true
ltb-true a b h = ground arith

same_or_later : (a b : ℕ) → a ≤ b → (a ≡ b) ⊎ (a + 1 ≤ b)
same_or_later a b h = elim (Bool-cases (nat_eq a b)) [
  | inl e ↦ inl (ground arith)
  | inr e ↦ inr (ground arith)
]

-- An expression names a reading: minute, hour and month are among its own, and so is the day by Vixie's rule. Where
-- both day fields are restricted, either will do; else each that is restricted decides.
abbrev pub Names : Cron → Wall → Type 0
Names cron wall =
    (has_value cron.minute.values wall.minute ≡ true)
    × (has_value cron.hour.values wall.hour ≡ true)
    × (has_value cron.month.values wall.month ≡ true)
    × (((cron.day.every_value ≡ false)
          × (cron.weekday.every_value ≡ false)
          × ((has_value cron.day.values wall.day ≡ true)
              ⊎ (has_value cron.weekday.values wall.weekday ≡ true)))
        ⊎ (((cron.day.every_value ≡ true) ⊎ (cron.weekday.every_value ≡ true))
            × ((cron.day.every_value ≡ true) ⊎ (has_value cron.day.values wall.day ≡ true))
            × ((cron.weekday.every_value ≡ true)
                ⊎ (has_value cron.weekday.values wall.weekday ≡ true))))

matches-Names : (cron : Cron) (wall : Wall) → matches cron wall ≡ true → Names cron wall
unfolding matches
matches-Names cron wall h = ground arith

Names-matches : (cron : Cron) (wall : Wall) → Names cron wall → matches cron wall ≡ true
unfolding matches
Names-matches cron wall h = ground arith

abbrev pub ReadAlike : Wall → Wall → Type 0
ReadAlike one other =
    (one.year ≡ other.year)
    × (one.month ≡ other.month)
    × (one.day ≡ other.day)
    × (one.hour ≡ other.hour)
    × (one.minute ≡ other.minute)

same_minute-ReadAlike : (one other : Wall) → same_minute one other ≡ true → ReadAlike one other
unfolding same_minute
same_minute-ReadAlike one other h = ground arith

ReadAlike-same_minute : (one other : Wall) → ReadAlike one other → same_minute one other ≡ true
unfolding same_minute
ReadAlike-same_minute one other h = ground arith

named_from-Names :
    (cron : Cron) (left at to : ℕ)
    → named_from cron left at to ≡ true
    → (m : ℕ) × (at ≤ m) × (m < at + left) × (m < to) × Names cron (utc_wall m)
unfolding named_from
named_from-Names cron zero at to h = cc
named_from-Names cron (suc left) at to h = elim (Bool-cases (matches cron (utc_wall at))) [
  | inl e ↦ (at, omega arith, omega arith, ground arith, matches-Names cron (utc_wall at) e)
  | inr e ↦
      let (m, from_on, before, ends, named) =
        named_from-Names cron left (at + 1) to (ground arith) in
      (m, omega arith, omega arith, ends, named)
]

Names-named_from :
    (cron : Cron) (left at to m : ℕ)
    → at ≤ m
    → m < at + left
    → m < to
    → Names cron (utc_wall m)
    → named_from cron left at to ≡ true
unfolding named_from
Names-named_from cron zero at to m from_on before ends named = absurd (omega arith)
Names-named_from cron (suc left) at to m from_on before ends named =
    both (ltb at to) (matches cron (utc_wall at)) (named_from cron left (at + 1) to)
      (ltb-true at to (omega arith))
      (elim (same_or_later at m from_on) [
        | inl e ↦ inl (
            subst (λ n. matches cron (utc_wall n) ≡ true) (sym e)
              (Names-matches cron (utc_wall m) named))
        | inr further ↦
            inr (Names-named_from cron left (at + 1) to m further (omega arith) ends named)
      ])

module _ (clock : ℕ → Wall) where
  read_before-ReadAlike :
      (left at : ℕ) (wall : Wall)
      → read_before clock left at wall ≡ true
      → (k : ℕ) × (1 ≤ k) × (k ≤ left) × ReadAlike (clock (at - k * minute)) wall
  unfolding read_before
  read_before-ReadAlike zero at wall h = cc
  read_before-ReadAlike (suc left) at wall h =
      elim (Bool-cases (same_minute (clock (at - minute)) wall)) [
        | inl e ↦ (1, omega arith, omega arith, same_minute-ReadAlike (clock (at - minute)) wall e)
        | inr e ↦
            let (k, least, most, alike) =
              read_before-ReadAlike left (at - minute) wall (ground arith) in
            (
              suc k,
              omega arith,
              omega arith,
              subst (λ t. ReadAlike (clock t) wall) (omega arith) alike,
            )
      ]

  ReadAlike-read_before :
      (left at k : ℕ) (wall : Wall)
      → 1 ≤ k
      → k ≤ left
      → ReadAlike (clock (at - k * minute)) wall
      → read_before clock left at wall ≡ true
  unfolding read_before
  ReadAlike-read_before left at zero wall least most alike = absurd (omega arith)
  ReadAlike-read_before zero at (suc k) wall least most alike = absurd (omega arith)
  ReadAlike-read_before (suc left) at (suc zero) wall least most alike =
      let here = ReadAlike-same_minute (clock (at - minute)) wall alike in ground arith
  ReadAlike-read_before (suc left) at (suc (suc k)) wall least most alike =
      let later =
        ReadAlike-read_before left (at - minute) (suc k) wall (omega arith) (omega arith)
          (subst (λ t. ReadAlike (clock t) wall) (omega arith) alike) in
      ground arith

  -- The clock read this minute already, some minute of the two hours before.
  abbrev pub IsRepeat : ℕ → Type 0
  IsRepeat at = (k : ℕ) × (1 ≤ k) × (k ≤ 120) × ReadAlike (clock (at - k * minute)) (clock at)

  module _ (cron : Cron) where
    -- The clock jumped forward to this instant, over a minute that the expression names, two hours at most.
    abbrev pub SwallowedTick : ℕ → Type 0
    SwallowedTick at =
        (m : ℕ) × (utc_minutes (clock (at - minute)) < m)
        × (m ≤ utc_minutes (clock (at - minute)) + 120)
        × (m < utc_minutes (clock at))
        × Names cron (utc_wall m)

    -- A jump swallowed a tick that falls due now, or the expression names what the clock reads, for the first time.
    abbrev pub Fires : ℕ → Type 0
    Fires at = SwallowedTick at ⊎ (Names cron (clock at) × ¬ IsRepeat at)

    gap-SwallowedTick :
        (at : ℕ) → named_in_gap cron (clock (at - minute)) (clock at) ≡ true → SwallowedTick at
    unfolding named_in_gap
    gap-SwallowedTick at h =
        let (m, from_on, before, ends, named) =
          named_from-Names cron 120 (utc_minutes (clock (at - minute)) + 1) (utc_minutes (clock at))
            h in
        (m, omega arith, omega arith, ends, named)

    SwallowedTick-gap :
        (at : ℕ) → SwallowedTick at → named_in_gap cron (clock (at - minute)) (clock at) ≡ true
    unfolding named_in_gap
    SwallowedTick-gap at (m, from_on, before, ends, named) =
        Names-named_from cron 120 (utc_minutes (clock (at - minute)) + 1) (utc_minutes (clock at)) m
          (omega arith) (omega arith) ends named

    repeated-not_IsRepeat : (at : ℕ) → repeated clock at (clock at) ≡ false → ¬ IsRepeat at
    unfolding repeated
    repeated-not_IsRepeat at h (k, least, most, alike) =
        let read = ReadAlike-read_before 120 at k (clock at) least most alike in cc

    not_IsRepeat-repeated : (at : ℕ) → ¬ IsRepeat at → repeated clock at (clock at) ≡ false
    unfolding repeated
    not_IsRepeat-repeated at h = elim (Bool-cases (read_before clock 120 at (clock at))) [
      | inl e ↦ absurd (h (read_before-ReadAlike 120 at (clock at) e))
      | inr e ↦ e
    ]

    -- The loop stops just where the schedule is to fire.
    pub stops_at-Fires : (at : ℕ) → stops_at clock cron (clock (at - minute)) at ≡ true → Fires at
    unfolding stops_at
    stops_at-Fires at h =
        elim (either_way (ltb (utc_minutes (clock (at - minute)) + 1) (utc_minutes (clock at)))
          (named_in_gap cron (clock (at - minute)) (clock at)) (matches cron (clock at))
          (repeated clock at (clock at)) h) [
            | inl e ↦ inl (gap-SwallowedTick at e)
            | inr (named, fresh) ↦
                inr (matches-Names cron (clock at) named, repeated-not_IsRepeat at fresh)
          ]

    Fires-stops :
        (at : ℕ)
        → Fires at
        → ((ltb (utc_minutes (clock (at - minute)) + 1) (utc_minutes (clock at)) ≡ true)
            × (named_in_gap cron (clock (at - minute)) (clock at) ≡ true))
          ⊎ ((matches cron (clock at) ≡ true) × (repeated clock at (clock at) ≡ false))
    Fires-stops at (inl swallowed) = inl (
      ltb-true (utc_minutes (clock (at - minute)) + 1) (utc_minutes (clock at))
          (let (m, from_on, before, ends, named) = swallowed in omega arith),
      SwallowedTick-gap at swallowed,
    )
    Fires-stops at (inr (named, fresh)) =
        inr (Names-matches cron (clock at) named, not_IsRepeat-repeated at fresh)

    pub Fires-stops_at : (at : ℕ) → Fires at → stops_at clock cron (clock (at - minute)) at ≡ true
    unfolding stops_at
    Fires-stops_at at h =
        one_way (ltb (utc_minutes (clock (at - minute)) + 1) (utc_minutes (clock at)))
          (named_in_gap cron (clock (at - minute)) (clock at)) (matches cron (clock at))
          (repeated clock at (clock at)) (Fires-stops at h)
