-- ===== src/Cron.antt =====
-- packages/plugin-schedule/src/cron.ts: a cron expression as it is parsed, over code points.
pub mod Bounds
pub mod Calendar
pub mod Tick
pub mod Fires
pub mod First
pub mod Interval
mod Tests
pub mod Term
use Prim.Native.Char.{code}
use wilanis_js.Common.{
  ℕ, zero, suc, ◌+◌, ◌-◌, ◌*◌, String, Bool, true, false, not, ◌&&◌, ◌||◌, Option, none, some, List,
  [], ◌∷◌, ◌++◌,
}
use wilanis_js.Common.{if◌then◌else◌, leb, ltb, nat_eq, every, some_of, length, map}
use wilanis_js.Types.Refs.{codes}
pub use wilanis_js.Cron.Term.{
  Cron, Field, Parsed, Refusal, Spec, Text, day_field, day_spec, hour_field, hour_spec, lower,
  minute_field, minute_spec, month_spec, no_step, number_from, one_value, out_of_range, parsed,
  refused, runs_backwards, same_text, split_at, star, step_of, weekday_field, weekday_spec,
}
unfoldable pub use wilanis_js.Cron.Term.{
  bounds_of, index_of_name, is_number, month_shift, number_of, range_of,
}
use wilanis_js.Cron.Term.{FieldName, empty_field, field_count}

abbrev pub has_value : List ℕ → ℕ → Bool
has_value values n = some_of (λ v. nat_eq v n) values

unfoldable pub add_value : ℕ → List ℕ → List ℕ
add_value n values = if has_value values n then values else values ++ n ∷ []

-- The loop of `addTerm`, in so many rounds at most.
unfoldable pub stepped : ℕ → ℕ → ℕ → ℕ → List ℕ → List ℕ
unfolding add_value
stepped zero value high step into = into
stepped (suc rounds) value high step into =
    let rest = stepped rounds (value + step) high step (add_value value into) in
    if leb value high then rest else into

abbrev add_bounds : ℕ → Parsed (ℕ × ℕ) → List ℕ → Parsed (List ℕ)
add_bounds step (refused why) into = refused why
add_bounds step (parsed (low, high)) into = parsed (stepped (suc (high - low)) low high step into)

abbrev add_stepped : Spec → Parsed (Text × ℕ) → List ℕ → Parsed (List ℕ)
add_stepped spec (refused why) into = refused why
add_stepped spec (parsed (term, step)) into = add_bounds step (bounds_of term spec) into

-- `addTerm`
unfoldable pub add_term : Text → Spec → List ℕ → Parsed (List ℕ)
unfolding step_of bounds_of stepped
add_term term spec into = add_stepped spec (step_of term spec) into

-- `split`, on one code point.
unfoldable pub split_on : ℕ → Text → List Text
split_on mark [] = [] ∷ []
split_on mark (c ∷ rest) = elim (split_on mark rest) [
  | [] ↦ []
  | word ∷ words ↦ if nat_eq c mark then [] ∷ word ∷ words else (c ∷ word) ∷ words
]

unfoldable pub add_terms : List Text → Spec → Parsed (List ℕ) → Parsed (List ℕ)
unfolding add_term
add_terms [] spec into = into
add_terms (term ∷ rest) spec (refused why) = refused why
add_terms (term ∷ rest) spec (parsed into) = add_terms rest spec (add_term term spec into)

-- `values.delete`
unfoldable pub delete_value : ℕ → List ℕ → List ℕ
delete_value n [] = []
delete_value n (v ∷ rest) =
    let later = delete_value n rest in if nat_eq v n then later else v ∷ later

-- Seven is Sunday, as zero is.
unfoldable pub sunday : FieldName → List ℕ → List ℕ
unfolding delete_value add_value
sunday weekday_field values =
    if has_value values 7 then add_value 0 (delete_value 7 values) else values
sunday name values = values

-- `*`, or a step over the whole range.
unfoldable pub is_every : Text → Bool
unfolding is_number
is_every (a ∷ b ∷ rest) = nat_eq a b'*' && nat_eq b b'/' && is_number rest
is_every text = star text

abbrev field_with : Text → Spec → Parsed (List ℕ) → Parsed Field
field_with text spec (refused why) = refused why
field_with text spec (parsed values) =
    parsed (record { values = sunday spec.name values; every_value = is_every text })

-- `parseField`
unfoldable pub parse_field : Text → Spec → Parsed Field
unfolding split_on add_terms sunday is_every
parse_field [] spec = refused (empty_field spec.name)
parse_field (c ∷ text) spec =
    field_with (c ∷ text) spec (add_terms (split_on b',' (c ∷ text)) spec (parsed []))

-- `\s`
abbrev is_space : ℕ → Bool
is_space c =
    (leb 9 c && leb c 13)
    || nat_eq c 32
    || nat_eq c 160
    || nat_eq c 5760
    || (leb 8192 c && leb c 8202)
    || nat_eq c 8232
    || nat_eq c 8233
    || nat_eq c 8239
    || nat_eq c 8287
    || nat_eq c 12288
    || nat_eq c 65279

-- The words of a text, between its spaces.
unfoldable pub words_of : Text → List Text
words_of [] = [] ∷ []
words_of (c ∷ rest) = elim (words_of rest) [
  | [] ↦ []
  | word ∷ words ↦ if is_space c then [] ∷ word ∷ words else (c ∷ word) ∷ words
]

-- `filter(Boolean)`
unfoldable pub filled : List Text → List Text
filled [] = []
filled ([] ∷ rest) = filled rest
filled ((c ∷ word) ∷ rest) = (c ∷ word) ∷ filled rest

abbrev and_field : {A : Type 0} → Parsed Field → (Field → Parsed A) → Parsed A
and_field (refused why) next = refused why
and_field (parsed field) next = next field

unfoldable pub parse_fields : List Text → Parsed Cron
unfolding parse_field
parse_fields (minute ∷ hour ∷ day ∷ month ∷ weekday ∷ []) =
    and_field (parse_field minute minute_spec) (λ m. and_field (parse_field hour hour_spec) (λ h.
      and_field (parse_field day day_spec) (λ d. and_field (parse_field month month_spec) (λ n.
        and_field (parse_field weekday weekday_spec)
          (λ w. parsed (record { minute = m; hour = h; day = d; month = n; weekday = w }))))))
parse_fields fields = refused (field_count (length fields))

-- `parseCron`
unfoldable pub parse_cron : String → Parsed Cron
unfolding words_of filled parse_fields
parse_cron text = parse_fields (filled (words_of (codes text)))
