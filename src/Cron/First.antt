-- ===== src/Cron/First.antt =====
-- packages/plugin-schedule/src/cron.ts: the next tick is the first there is.
use wilanis_js.Common.{
  ℕ, zero, suc, ◌+◌, ◌-◌, ◌*◌, ◌/◌, ◌≤◌, ◌<◌, ◌≡◌, refl, ap, sym, Bool, true, false, Option, none,
  some, arith,
}
use wilanis_js.Common.{Bool-cases, Option-cases, inl, inr, leb, List, [], ◌∷◌, length}
use mathlib.Core.Path.{subst}
use wilanis_js.Cron.{Cron}
use wilanis_js.Cron.Calendar.{Wall}
use wilanis_js.Cron.Fires.{Fires, stops_at-Fires, Fires-stops_at}
use wilanis_js.Cron.Tick.{
  minute, horizon, stops_at, search_from, next_tick, first_minute, ticks_from,
}
use wilanis_js.Cron.Tick.{ticks_between}

not_leb : (a b : ℕ) → leb a b ≡ false → b < a
not_leb a b h = ground arith

sooner_still : (a b c : ℕ) → a < b → leb b c ≡ true → a < c
sooner_still a b c less h = ground arith

module _ (clock : ℕ → Wall) (cron : Cron) where
  -- An instant at which the loop stops.
  unfoldable pub fires : ℕ → Bool
  unfolding stops_at
  fires at = stops_at clock cron (clock (at - minute)) at

  -- The first instant that stops the loop, of a number of minutes from one on.
  abbrev pub IsFirstOf : ℕ → ℕ → Option ℕ → Type 0
  IsFirstOf at steps none = (k : ℕ) → k < steps → fires (at + k * minute) ≡ false
  IsFirstOf at steps (some next) =
      (n : ℕ) × (next ≡ at + n * minute)
      × (n < steps)
      × (fires next ≡ true)
      × ((k : ℕ) → k < n → fires (at + k * minute) ≡ false)

  later-quiet :
      (at n : ℕ)
      → fires at ≡ false
      → ((k : ℕ) → k < n → fires (at + minute + k * minute) ≡ false)
      → (k : ℕ) → k < suc n
      → fires (at + k * minute) ≡ false
  later-quiet at n quiet h zero less = subst (λ m. fires m ≡ false) (omega arith) quiet
  later-quiet at n quiet h (suc k) less =
      subst (λ m. fires m ≡ false) (omega arith) (h k (omega arith))

  later-first :
      (at steps : ℕ) (o : Option ℕ)
      → fires at ≡ false
      → IsFirstOf (at + minute) steps o
      → IsFirstOf at (suc steps) o
  later-first at steps none quiet h = later-quiet at steps quiet h
  later-first at steps (some next) quiet (n, e, less, stops, before) =
      (suc n, omega arith, omega arith, stops, later-quiet at n quiet before)

  search-stops :
      (steps at : ℕ)
      → fires at ≡ true
      → search_from clock cron (suc steps) at (clock (at - minute)) ≡ some at
  unfolding search_from fires
  search-stops steps at e = rw (search_from, e) refl

  search-goes :
      (steps at : ℕ)
      → fires at ≡ false
      → search_from clock cron (suc steps) at (clock (at - minute))
        ≡ search_from clock cron steps (at + minute) (clock at)
  unfolding search_from fires
  search-goes steps at e = rw (search_from, e) refl

  search_from-first :
      (steps at : ℕ) → IsFirstOf at steps (search_from clock cron steps at (clock (at - minute)))
  unfolding search_from
  search_from-first zero at = λ k less. absurd (omega arith)
  search_from-first (suc steps) at =
      let before : at + minute - minute ≡ at = omega arith in
      let later : IsFirstOf (at + minute) steps
          (search_from clock cron steps (at + minute) (clock at)) =
        subst
          (λ n.
            IsFirstOf (at + minute) steps (search_from clock cron steps (at + minute) (clock n)))
          before (search_from-first steps (at + minute)) in
      elim (Bool-cases (fires at)) [
        | inl e ↦
            subst (IsFirstOf at (suc steps)) (sym (search-stops steps at e))
              (0, omega arith, omega arith, e, λ k less. absurd (omega arith))
        | inr e ↦
            subst (IsFirstOf at (suc steps)) (sym (search-goes steps at e))
              (later-first at steps (search_from clock cron steps (at + minute) (clock at)) e later)
      ]

  -- The instant that a schedule is to fire at next, after another: a whole minute at which it fires, of the four
  -- leap years that follow, with none in between; or none of those minutes is one.
  abbrev pub IsNext : ℕ → Option ℕ → Type 0
  IsNext after none =
      (n : ℕ)
      → after < n * minute
      → n * minute ≤ after + (4 * (366 * (24 * 60))) * minute
      → ¬ Fires clock cron (n * minute)
  IsNext after (some next) =
      (n : ℕ) × (next ≡ n * minute)
      × (after < next)
      × (next ≤ after + (4 * (366 * (24 * 60))) * minute)
      × Fires clock cron next
      × ((k : ℕ) → after < k * minute → k * minute < next → ¬ Fires clock cron (k * minute))

  quiet_then : (at : ℕ) → fires at ≡ false → ¬ Fires clock cron at
  unfolding fires
  quiet_then at quiet h = let loud = Fires-stops_at clock cron at h in cc

  first-IsNext :
      (after : ℕ) (o : Option ℕ) → IsFirstOf (first_minute after) horizon o → IsNext after o
  unfolding fires
  first-IsNext after none h = λ n later most.
      quiet_then (n * minute)
        (subst (λ t. fires t ≡ false) (omega arith) (h (n - (after / minute + 1)) (omega arith)))
  first-IsNext after (some next) (n, e, less, stops, before) = (
    after / minute + 1 + n,
    omega arith,
    omega arith,
    omega arith,
    stops_at-Fires clock cron next stops,
    λ k later sooner. quiet_then (k * minute) (
        subst (λ t. fires t ≡ false) (omega arith)
          (before (k - (after / minute + 1)) (omega arith))),
  )

  -- The next tick is the first whole minute after the instant asked for at which the schedule is to fire: the
  -- expression names what the clock reads there and did not read in the two hours before, or the clock jumped there
  -- over a minute that the expression names, of the two hours after the reading before. It is within four leap years
  -- of the instant; where there is none, none of their whole minutes is such a one.
  pub next_tick-first : (after : ℕ) → IsNext after (next_tick clock cron after)
  unfolding next_tick
  next_tick-first after =
      first-IsNext after
        (search_from clock cron horizon (first_minute after) (clock (first_minute after - minute)))
        (search_from-first horizon (first_minute after))

  -- All the ticks between two instants, each the next after the one before it; or as many of them as are counted.
  abbrev pub AreTicks : ℕ → ℕ → ℕ → List ℕ → Type 0
  AreTicks zero at to [] = Unit
  AreTicks zero at to (next ∷ rest) = ⊥
  AreTicks (suc left) at to [] =
      (n : ℕ)
      → at < n * minute
      → n * minute < to
      → n * minute ≤ at + (4 * (366 * (24 * 60))) * minute
      → ¬ Fires clock cron (n * minute)
  AreTicks (suc left) at to (next ∷ rest) =
      IsNext at (some next) × (next < to) × AreTicks left next to rest

  found-IsNext : (at next : ℕ) → next_tick clock cron at ≡ some next → IsNext at (some next)
  found-IsNext at next e = subst (IsNext at) e (next_tick-first at)

  ticks_from-ticks :
      (left at to : ℕ)
      → (ticks : List ℕ) × AreTicks left at to ticks
        × (length ticks ≡ ticks_from clock cron left at to)
  unfolding ticks_from
  ticks_from-ticks zero at to = ([], tt, refl)
  ticks_from-ticks (suc left) at to = elim (Option-cases (next_tick clock cron at)) [
    | inl e ↦
        let quiet = subst (IsNext at) e (next_tick-first at) in
        ([], λ n later sooner most. quiet n later most, rw (ticks_from, e) refl)
    | inr (next, e) ↦ elim (Bool-cases (leb to next)) [
      | inl c ↦
          let (n, whole, later, most, fires_so, none_before) = found-IsNext at next e in
          (
            [],
            λ k after_it sooner far.
                none_before k after_it (sooner_still (k * minute) to next sooner c),
            rw (ticks_from, e, c) refl,
          )
      | inr c ↦
          let (ticks, are, counted) = ticks_from-ticks left next to in
          (
            next ∷ ticks,
            (found-IsNext at next e, not_leb to next c, are),
            rw (ticks_from, e, c) (ap suc counted),
          )
    ]
  ]

  -- The count of ticks between two instants is of all that there are, each the next after the one before it and
  -- before the end, up to the ceiling, which is a thousand where none is given: it stops short of the ceiling only
  -- where no minute from the last of them to the end, of the four leap years after it, fires.
  pub ticks_between-ticks :
      (from to : ℕ) (ceiling : Option ℕ)
      → (ticks : List ℕ) × AreTicks (elim ceiling [ none ↦ 1000 | some most ↦ most ]) from to ticks
        × (length ticks ≡ ticks_between clock cron from to ceiling)
  unfolding ticks_between
  ticks_between-ticks from to none = ticks_from-ticks 1000 from to
  ticks_between-ticks from to (some most) = ticks_from-ticks most from to
