-- ===== src/Cron/Bounds.antt =====
-- packages/plugin-schedule/src/cron.ts: what a parsed expression names is there on a clock.
pub mod Terms
use mathlib.Core.Path.{subst}
use wilanis_js.Common.{
  ℕ, zero, suc, ◌+◌, ◌-◌, ◌≤◌, ◌<◌, ◌≡◌, refl, ap, ◌∙◌, sym, String, false, ◌||◌,
}
use wilanis_js.Common.{Option, none, some, List, [], ◌∷◌, leb, ltb, nat_eq, length, map, arith}
use wilanis_js.Common.{Bool-cases, Option-cases, inl, inr, All, All-append}
use mathlib.Core.Option.{some-injective}
use wilanis_js.Types.Refs.{codes}
use wilanis_js.Cron.{Text, Spec, Field, Cron, Parsed, parsed, refused, Refusal, month_shift}
use wilanis_js.Cron.{weekday_field}
use wilanis_js.Cron.{
  minute_spec, hour_spec, day_spec, month_spec, weekday_spec, index_of_name, number_of,
}
use wilanis_js.Cron.{
  bounds_of, range_of, one_value, stepped, add_value, has_value, add_term, add_terms,
}
use wilanis_js.Cron.{
  step_of, add_stepped, add_bounds, sunday, delete_value, parse_field, field_with,
}
use wilanis_js.Cron.{
  and_field, parse_fields, parse_cron, words_of, filled, is_number, number_from, split_at,
}
use wilanis_js.Cron.{same_text, lower, star, split_on}
use wilanis_js.Cron.Bounds.Terms.{
  IsBetween, IsSpec, add_stepped-IsBetween, add_value-IsBetween, parsed-injective,
}

add_terms-IsBetween :
    (terms : List Text) (spec : Spec) (o : Parsed (List ℕ)) (values : List ℕ)
    → IsSpec spec
    → ((into : List ℕ) → o ≡ parsed into → IsBetween spec.low spec.high into)
    → add_terms terms spec o ≡ parsed values
    → IsBetween spec.low spec.high values
unfolding add_terms add_term
add_terms-IsBetween [] spec o values is all h = all values h
add_terms-IsBetween (term ∷ terms) spec (refused why) values is all h = cc
add_terms-IsBetween (term ∷ terms) spec (parsed into) values is all h =
    add_terms-IsBetween terms spec (add_term term spec into) values is
      (λ more e. add_stepped-IsBetween spec (step_of term spec) into more is (all into refl) e) h

-- A day of the week is none past Saturday, once Sunday is zero.
delete_value-below :
    (values : List ℕ) → IsBetween 0 7 values → IsBetween 0 6 (delete_value 7 values)
unfolding delete_value
delete_value-below [] all = tt
delete_value-below (v ∷ values) (bound, all) = elim (Bool-cases (nat_eq v 7)) [
  | inl e ↦ rw e (delete_value-below values all)
  | inr e ↦ rw e ((omega arith, ground arith), delete_value-below values all)
]

no_seven :
    (values : List ℕ) → IsBetween 0 7 values → has_value values 7 ≡ false → IsBetween 0 6 values
no_seven [] all h = tt
no_seven (v ∷ values) (bound, all) h =
    ((omega arith, ground arith), no_seven values all (ground arith))

sunday-IsBetween :
    (values : List ℕ) → IsBetween 0 7 values → IsBetween 0 6 (sunday weekday_field values)
unfolding sunday
sunday-IsBetween values all = elim (Bool-cases (has_value values 7)) [
  | inl e ↦ rw e (
      add_value-IsBetween 0 6 0 (delete_value 7 values) (omega arith, omega arith)
        (delete_value-below values all))
  | inr e ↦ rw e (no_seven values all e)
]

-- What the terms of a field come to, before Sunday is one.
abbrev Raw : Spec → Field → Type 0
Raw spec field =
    (values : List ℕ) × (field.values ≡ sunday spec.name values)
    × (IsBetween spec.low spec.high values)

field_with-Raw :
    (text : Text) (spec : Spec) (o : Parsed (List ℕ)) (field : Field)
    → ((values : List ℕ) → o ≡ parsed values → IsBetween spec.low spec.high values)
    → field_with text spec o ≡ parsed field
    → Raw spec field
field_with-Raw text spec (refused why) field all h = cc
field_with-Raw text spec (parsed values) field all h =
    (values, ap (λ (f : Field). f.values) (sym (parsed-injective _ field h)), all values refl)

parse_field-Raw :
    (text : Text) (spec : Spec) (field : Field)
    → IsSpec spec
    → parse_field text spec ≡ parsed field
    → Raw spec field
unfolding parse_field
parse_field-Raw [] spec field is h = cc
parse_field-Raw (c ∷ text) spec field is h =
    field_with-Raw (c ∷ text) spec (add_terms (split_on b',' (c ∷ text)) spec (parsed [])) field
      (λ values e.
        add_terms-IsBetween (split_on b',' (c ∷ text)) spec (parsed []) values is
          (λ into e'. subst (IsBetween spec.low spec.high) (parsed-injective [] into e') tt) e)
      h

-- The values of a field are of its range.
plain-IsBetween :
    (text : Text) (spec : Spec) (field : Field)
    → IsSpec spec
    → ((values : List ℕ) → sunday spec.name values ≡ values)
    → parse_field text spec ≡ parsed field
    → IsBetween spec.low spec.high field.values
plain-IsBetween text spec field is plain h =
    let (values, e, all) = parse_field-Raw text spec field is h in
    subst (IsBetween spec.low spec.high) (sym (e ∙ plain values)) all

weekday-IsBetween :
    (text : Text) (field : Field)
    → parse_field text weekday_spec ≡ parsed field
    → IsBetween 0 6 field.values
unfolding month_shift
weekday-IsBetween text field h =
    let (values, e, all) =
      parse_field-Raw text weekday_spec field (omega arith, λ some_name. omega arith, omega arith)
        h in
    subst (IsBetween 0 6) (sym e) (sunday-IsBetween values all)

and_field-parsed :
    {A : Type 0} (o : Parsed Field) (next : Field → Parsed A) (a : A)
    → and_field o next ≡ parsed a
    → (field : Field) × (o ≡ parsed field) × (next field ≡ parsed a)
and_field-parsed (refused why) next a h = cc
and_field-parsed (parsed field) next a h = (field, refl, h)

-- Every value of a field is there on a clock.
abbrev pub IsOnClock : Cron → Type 0
IsOnClock cron =
    (IsBetween 0 59 cron.minute.values)
    × (IsBetween 0 23 cron.hour.values)
    × (IsBetween 1 31 cron.day.values)
    × (IsBetween 1 12 cron.month.values)
    × (IsBetween 0 6 cron.weekday.values)

parse_fields-IsOnClock :
    (fields : List Text) (cron : Cron) → parse_fields fields ≡ parsed cron → IsOnClock cron
unfolding parse_fields sunday month_shift
parse_fields-IsOnClock (minute ∷ hour ∷ day ∷ month ∷ weekday ∷ []) cron h =
    let (m, hm, h1) = and_field-parsed (parse_field minute minute_spec) _ cron h in
    let (o, ho, h2) = and_field-parsed (parse_field hour hour_spec) _ cron h1 in
    let (d, hd, h3) = and_field-parsed (parse_field day day_spec) _ cron h2 in
    let (n, hn, h4) = and_field-parsed (parse_field month month_spec) _ cron h3 in
    let (w, hw, h5) = and_field-parsed (parse_field weekday weekday_spec) _ cron h4 in
    subst IsOnClock (parsed-injective _ cron h5) (
      plain-IsBetween minute minute_spec m (omega arith, λ some_name. omega arith, omega arith)
          (λ v. refl) hm,
      plain-IsBetween hour hour_spec o (omega arith, λ some_name. omega arith, omega arith)
          (λ v. refl) ho,
      plain-IsBetween day day_spec d (omega arith, λ some_name. omega arith, omega arith)
          (λ v. refl) hd,
      plain-IsBetween month month_spec n (omega arith, λ some_name. omega arith, omega arith)
          (λ v. refl) hn,
      weekday-IsBetween weekday w hw,
    )
parse_fields-IsOnClock fields cron h = cc

-- Where a text is parsed, each of its fields names only minutes, hours, days, months and days of the week
-- that a clock reads, Sunday being zero.
pub parse_cron-IsOnClock :
    (text : String) (cron : Cron) → parse_cron text ≡ parsed cron → IsOnClock cron
unfolding parse_cron
parse_cron-IsOnClock text cron h = parse_fields-IsOnClock (filled (words_of (codes text))) cron h
