-- ===== src/Cron/Term.antt =====
-- packages/plugin-schedule/src/cron.ts: the numbers, the ranges and the steps of an expression.
use wilanis_js.Common.{
  ℕ, suc, ◌+◌, ◌-◌, ◌*◌, Bool, true, false, not, ◌&&◌, ◌||◌, Option, none, some, List, [], ◌∷◌,
}
use wilanis_js.Common.{if◌then◌else◌, leb, ltb, nat_eq, every, map}
use wilanis_js.Types.Refs.{codes}

abbrev pub Text : Type 0
Text = List ℕ

-- The fields of an expression, by the word a refusal names them with.
pub data FieldName : Type 0 where
  minute_field hour_field day_field month_field weekday_field : FieldName

-- A line of RANGES.
pub record Spec : Type 0 where
  pub name : FieldName
  pub low : ℕ
  pub high : ℕ
  pub words : List Text

-- `Field`; a `Set` is a list that `add_value` puts no number into twice.
pub record Field : Type 0 where
  pub values : List ℕ
  pub every_value : Bool

pub record Cron : Type 0 where
  pub minute : Field
  pub hour : Field
  pub day : Field
  pub month : Field
  pub weekday : Field

-- The reasons a text is not an expression, with what each names.
pub data Refusal : Type 0 where
  not_a out_of_range runs_backwards no_step : Text → FieldName → Refusal
  empty_field : FieldName → Refusal
  field_count : ℕ → Refusal

pub data Parsed {ℓ} (A : Type ℓ) : Type ℓ where
  parsed : A → Parsed A
  refused : Refusal → Parsed A

abbrev months : List Text
months = map codes (
    "jan" ∷ "feb" ∷ "mar" ∷ "apr" ∷ "may" ∷ "jun" ∷ "jul" ∷ "aug" ∷ "sep" ∷ "oct" ∷ "nov" ∷ "dec"
    ∷ [])

abbrev days : List Text
days = map codes ("sun" ∷ "mon" ∷ "tue" ∷ "wed" ∷ "thu" ∷ "fri" ∷ "sat" ∷ [])

abbrev pub minute_spec : Spec
minute_spec = record { name = minute_field; low = 0; high = 59; words = [] }

abbrev pub hour_spec : Spec
hour_spec = record { name = hour_field; low = 0; high = 23; words = [] }

abbrev pub day_spec : Spec
day_spec = record { name = day_field; low = 1; high = 31; words = [] }

abbrev pub month_spec : Spec
month_spec = record { name = month_field; low = 1; high = 12; words = months }

abbrev pub weekday_spec : Spec
weekday_spec = record { name = weekday_field; low = 0; high = 7; words = days }

abbrev pub same_text : Text → Text → Bool
same_text [] [] = true
same_text (a ∷ left) (b ∷ right) = nat_eq a b && same_text left right
same_text _ _ = false

-- `toLowerCase`, as far as the names can tell.
abbrev pub lower : ℕ → ℕ
lower c = if leb b'A' c && leb c b'Z' then c + 32 else c

-- `names.indexOf(term)`, from an index on.
unfoldable pub index_of_name : List Text → Text → ℕ → Option ℕ
index_of_name [] term i = none
index_of_name (name ∷ rest) term i =
    let later = index_of_name rest term (suc i) in if same_text name term then some i else later

abbrev is_digit : ℕ → Bool
is_digit c = leb b'0' c && leb c b'9'

-- `/^\d+$/`
unfoldable pub is_number : Text → Bool
is_number [] = false
is_number (c ∷ rest) = every is_digit (c ∷ rest)

-- `Number`, of digits, after those read so far.
unfoldable pub number_from : ℕ → Text → ℕ
number_from n [] = n
number_from n (c ∷ rest) = number_from (n * 10 + (c - b'0')) rest

unfoldable pub month_shift : FieldName → ℕ
month_shift month_field = 1
month_shift name = 0

-- `numberOf`
unfoldable pub number_of : Text → Spec → Parsed ℕ
unfolding index_of_name is_number number_from month_shift
number_of term spec = elim (index_of_name spec.words (map lower term) 0) [
  | some named ↦ parsed (named + month_shift spec.name)
  | none ↦
      if not (is_number term)
      then refused (not_a term spec.name)
      else if ltb (number_from 0 term) spec.low || ltb spec.high (number_from 0 term)
      then refused (out_of_range term spec.name)
      else parsed (number_from 0 term)
]

-- `indexOf`: what stands before the first such code point and what stands after, if there is one.
unfoldable pub split_at : ℕ → Text → Option (Text × Text)
split_at mark [] = none
split_at mark (c ∷ rest) =
    let later = split_at mark rest in
    if nat_eq c mark
    then some ([], rest)
    else (elim later [ none ↦ none | some (before, after) ↦ some (c ∷ before, after) ])

-- A range of which both ends are numbers.
unfoldable pub range_of : Text → Spec → Parsed ℕ → Parsed ℕ → Parsed (ℕ × ℕ)
range_of term spec (refused why) high = refused why
range_of term spec (parsed low) (refused why) = refused why
range_of term spec (parsed low) (parsed high) =
    if ltb high low then refused (runs_backwards term spec.name) else parsed (low, high)

abbrev pub one_value : Parsed ℕ → Parsed (ℕ × ℕ)
one_value (refused why) = refused why
one_value (parsed n) = parsed (n, n)

abbrev pub star : Text → Bool
star term = same_text term (b'*' ∷ [])

-- `boundsOf`
unfoldable pub bounds_of : Text → Spec → Parsed (ℕ × ℕ)
unfolding number_of split_at range_of
bounds_of term spec =
    if star term then parsed (spec.low, spec.high) else (elim (split_at b'-' term) [
      | none ↦ one_value (number_of term spec)
      | some ([], after) ↦ one_value (number_of term spec)
      | some (c ∷ before, after) ↦
          range_of term spec (number_of (c ∷ before) spec) (number_of after spec)
    ])

-- `stepOf`: the term without its step, and the step.
unfoldable pub step_of : Text → Spec → Parsed (Text × ℕ)
unfolding split_at is_number number_from
step_of term spec = elim (split_at b'/' term) [
  | none ↦ parsed (term, 1)
  | some (before, step) ↦
      if not (is_number step) || ltb (number_from 0 step) 1
      then refused (no_step term spec.name)
      else parsed (before, number_from 0 step)
]
