-- ===== src/Cron/Bounds/Terms.antt =====
-- packages/plugin-schedule/src/cron.ts: what the terms of a field name is in its range.
use mathlib.Core.Path.{subst}
use wilanis_js.Common.{ℕ, zero, suc, ◌+◌, ◌-◌, ◌≤◌, ◌<◌, ◌≡◌, refl, ◌||◌}
use wilanis_js.Common.{Option, none, some, List, [], ◌∷◌, leb, ltb, length, map, arith}
use wilanis_js.Common.{Bool-cases, Option-cases, inl, inr, All, All-append}
use mathlib.Core.Option.{some-injective}
use wilanis_js.Cron.{Text, Spec, Parsed, parsed, refused, Refusal, month_shift}
use wilanis_js.Cron.{index_of_name, number_of}
use wilanis_js.Cron.{bounds_of, range_of, one_value, stepped, add_value, has_value}
use wilanis_js.Cron.{add_stepped, add_bounds}
use wilanis_js.Cron.{is_number, number_from, split_at}
use wilanis_js.Cron.{same_text, lower, star}

abbrev pub IsBetween : ℕ → ℕ → List ℕ → Type 0
IsBetween low high = All (λ v. (low ≤ v) × (v ≤ high))

-- A line of RANGES whose names are numbers of the range.
abbrev pub IsSpec : Spec → Type 0
IsSpec spec =
    (spec.low ≤ spec.high)
    × (0 < length spec.words → spec.low ≤ month_shift spec.name)
    × (length spec.words + month_shift spec.name ≤ suc spec.high)

pub parsed-injective : {A : Type 0} (a b : A) → parsed a ≡ parsed b → a ≡ b
parsed-injective a b h = cc

refused≢parsed : {A : Type 0} (why : Refusal) (a : A) → refused why ≡ parsed a → ⊥
refused≢parsed why a h = cc

index_of_name-bound :
    (names : List Text) (term : Text) (i k : ℕ)
    → index_of_name names term i ≡ some k
    → (i ≤ k) × (k < i + length names)
unfolding index_of_name
index_of_name-bound [] term i k h = cc
index_of_name-bound (name ∷ names) term i k h = elim (Bool-cases (same_text name term)) [
  | inl e ↦ let same : i ≡ k = some-injective i k (rw e at h) in (omega arith, omega arith)
  | inr e ↦
      let (low, high) = index_of_name-bound names term (suc i) k (rw e at h) in
      (omega arith, omega arith)
]

number_of-bound :
    (term : Text) (spec : Spec) (n : ℕ)
    → IsSpec spec
    → number_of term spec ≡ parsed n
    → (spec.low ≤ n) × (n ≤ spec.high)
unfolding number_of
number_of-bound term spec n (ordered, shift, names) h =
    elim (Option-cases (index_of_name spec.words (map lower term) 0)) [
      | inr (k, e) ↦
          let (low, high) = index_of_name-bound spec.words (map lower term) 0 k e in
          let same = parsed-injective (k + month_shift spec.name) n (rw (number_of, e) at h) in
          let enough = shift (omega arith) in (omega arith, omega arith)
      | inl e ↦ elim (Bool-cases (is_number term)) [
        | inr c ↦ absurd (let wrong = rw (number_of, e, c) at h in cc)
        | inl c ↦
            elim (Bool-cases
              (ltb (number_from 0 term) spec.low || ltb spec.high (number_from 0 term))) [
                | inl d ↦ absurd (let wrong = rw (number_of, e, c, d) at h in cc)
                | inr d ↦
                    let same =
                      parsed-injective (number_from 0 term) n (rw (number_of, e, c, d) at h) in
                    (ground arith, ground arith)
              ]
      ]
    ]

abbrev IsRange : Spec → ℕ × ℕ → Type 0
IsRange spec (low, high) = (spec.low ≤ low) × (high ≤ spec.high)

range_of-bound :
    (term : Text) (spec : Spec) (low high : Parsed ℕ) (p : ℕ × ℕ)
    → ((n : ℕ) → low ≡ parsed n → spec.low ≤ n)
    → ((n : ℕ) → high ≡ parsed n → n ≤ spec.high)
    → range_of term spec low high ≡ parsed p
    → IsRange spec p
unfolding range_of
range_of-bound term spec (refused why) high p from to h = cc
range_of-bound term spec (parsed low) (refused why) p from to h = cc
range_of-bound term spec (parsed low) (parsed high) p from to h = elim (Bool-cases (ltb high low)) [
  | inl e ↦ absurd (let wrong = rw (range_of, e) at h in cc)
  | inr e ↦
      let same = parsed-injective (low, high) p (rw (range_of, e) at h) in
      subst (IsRange spec) same (from low refl, to high refl)
]

one_value-bound :
    (spec : Spec) (o : Parsed ℕ) (p : ℕ × ℕ)
    → ((n : ℕ) → o ≡ parsed n → (spec.low ≤ n) × (n ≤ spec.high))
    → one_value o ≡ parsed p
    → IsRange spec p
one_value-bound spec (refused why) p bound h = cc
one_value-bound spec (parsed n) p bound h =
    subst (IsRange spec) (parsed-injective (n, n) p h) (bound n refl)

-- What the marks of a term leave of it.
by_dash : Text → Spec → Option (Text × Text) → Parsed (ℕ × ℕ)
by_dash term spec none = one_value (number_of term spec)
by_dash term spec (some ([], after)) = one_value (number_of term spec)
by_dash term spec (some (c ∷ before, after)) =
    range_of term spec (number_of (c ∷ before) spec) (number_of after spec)

by_dash-bound :
    (term : Text) (spec : Spec) (o : Option (Text × Text)) (p : ℕ × ℕ)
    → IsSpec spec
    → by_dash term spec o ≡ parsed p
    → IsRange spec p
unfolding by_dash
by_dash-bound term spec none p is h =
    one_value-bound spec (number_of term spec) p (λ n e. number_of-bound term spec n is e) h
by_dash-bound term spec (some ([], after)) p is h =
    one_value-bound spec (number_of term spec) p (λ n e. number_of-bound term spec n is e) h
by_dash-bound term spec (some (c ∷ before, after)) p is h =
    range_of-bound term spec (number_of (c ∷ before) spec) (number_of after spec) p
      (λ n e. (number_of-bound (c ∷ before) spec n is e).0)
      (λ n e. (number_of-bound after spec n is e).1) h

bounds_of-bound :
    (term : Text) (spec : Spec) (p : ℕ × ℕ)
    → IsSpec spec
    → bounds_of term spec ≡ parsed p
    → IsRange spec p
unfolding bounds_of by_dash
bounds_of-bound term spec p is h = elim (Bool-cases (star term)) [
  | inl e ↦
      let same = parsed-injective (spec.low, spec.high) p (rw (bounds_of, e) at h) in
      subst (IsRange spec) same (omega arith, omega arith)
  | inr e ↦ by_dash-bound term spec (split_at b'-' term) p is (rw (bounds_of, e) at h)
]

pub add_value-IsBetween :
    (low high n : ℕ) (values : List ℕ)
    → (low ≤ n) × (n ≤ high)
    → IsBetween low high values
    → IsBetween low high (add_value n values)
unfolding add_value
add_value-IsBetween low high n values bound all = elim (Bool-cases (has_value values n)) [
  | inl e ↦ rw e all
  | inr e ↦ rw e (All-append _ values (n ∷ []) all (bound, tt))
]

stepped-IsBetween :
    (rounds value last step : ℕ) (into : List ℕ) (low high : ℕ)
    → low ≤ value
    → last ≤ high
    → IsBetween low high into
    → IsBetween low high (stepped rounds value last step into)
unfolding stepped
stepped-IsBetween zero value last step into low high from to all = all
stepped-IsBetween (suc rounds) value last step into low high from to all =
    elim (Bool-cases (leb value last)) [
      | inr e ↦ rw e all
      | inl e ↦ rw e (
          stepped-IsBetween rounds (value + step) last step (add_value value into) low high
            (omega arith) to (add_value-IsBetween low high value into (from, ground arith) all))
    ]

add_bounds-IsBetween :
    (spec : Spec) (step : ℕ) (o : Parsed (ℕ × ℕ)) (into values : List ℕ)
    → ((p : ℕ × ℕ) → o ≡ parsed p → IsRange spec p)
    → IsBetween spec.low spec.high into
    → add_bounds step o into ≡ parsed values
    → IsBetween spec.low spec.high values
add_bounds-IsBetween spec step (refused why) into values bound all h = cc
add_bounds-IsBetween spec step (parsed (low, high)) into values bound all h =
    let (from, to) = bound (low, high) refl in
    subst (IsBetween spec.low spec.high) (parsed-injective _ values h)
      (stepped-IsBetween (suc (high - low)) low high step into spec.low spec.high from to all)

pub add_stepped-IsBetween :
    (spec : Spec) (o : Parsed (Text × ℕ)) (into values : List ℕ)
    → IsSpec spec
    → IsBetween spec.low spec.high into
    → add_stepped spec o into ≡ parsed values
    → IsBetween spec.low spec.high values
add_stepped-IsBetween spec (refused why) into values is all h = cc
add_stepped-IsBetween spec (parsed (term, step)) into values is all h =
    add_bounds-IsBetween spec step (bounds_of term spec) into values
      (λ p e. bounds_of-bound term spec p is e) all h
