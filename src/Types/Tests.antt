-- ===== src/Types/Tests.antt =====
-- The judgements of types, run on a shape of a customer.
use wilanis_js.Common.{ℕ, Bool, ◌≡◌, refl, true, false, none, some, [], ◌∷◌}
use wilanis_js.Common.{nat_eq, ltb, arith}
use wilanis_js.Types.{Value, num, str, arr, obj, nil, cons, end, member, Floats, unmarked}
use wilanis_js.Types.{Ty, string, number, unknown, list, object, bare, field, closed, open_to}
use wilanis_js.Types.Assign.{assignable, assignable_trimmed, optional_but_required}
use wilanis_js.Types.Conform.{
  undeclared_here, problem_of, prune, at_name, at_index, expected_string,
}
use wilanis_js.Types.Sound.{assignable-conforms}
use wilanis_js.Types.Prune.{prune-conforming}
use wilanis_js.Types.Trim.{assignable_trimmed-prune}

instance abbrev nat_floats : Floats ℕ
nat_floats = record {
  is_finite = λ n. true;
  same = nat_eq;
  less = ltb;
  of_count = λ n. n;
  of_count_finite = λ n. refl;
}

-- Two types that are never one object.
abbrev never : Ty → Ty → Bool
never a b = false

never-one : (a b : Ty) → never a b ≡ true → a ≡ b
never-one a b h = cc

abbrev stored : Ty
stored =
    object (some "Customer")
      (field "id" (string none) true unmarked (
        field "tier" (string (some ("gold" ∷ []))) true unmarked (
          field "tags" (list (string none) none false) false unmarked
            (field "visits" number false unmarked bare))))
      closed

abbrev shown : Ty
shown =
    object (some "CustomerView")
      (field "id" (string none) true unmarked
        (field "tier" (string (some ("gold" ∷ "plain" ∷ []))) false unmarked bare))
      (open_to unknown)

abbrev brief : Ty
brief =
    object (some "Brief")
      (field "tags" (list (string none) none false) false unmarked
        (field "id" (string none) true unmarked bare))
      closed

abbrev ada : Value ℕ
ada = obj (
    member "id" (str "c1")
      (member "tier" (str "gold") (member "tags" (arr (cons (str "vip") nil)) end)))

assignable_tests :
    (assignable never stored shown ≡ none)
    × (assignable never shown stored ≡ some (optional_but_required "tier"))
    × (assignable_trimmed never stored brief ≡ none)
unfolding assignable assignable_trimmed
assignable_tests = (refl, refl, refl)

-- A field named by the empty text is let through, though no value with it conforms.
empty_name :
    (assignable never
        (object none (field "" (string none) true unmarked bare) closed)
        (object none bare closed)
      ≡ none)
    × (problem_of {F = ℕ} (obj (member "" (str "x") end)) (object none bare closed)
        ≡ some (at_name "" undeclared_here))
unfolding assignable problem_of
empty_name = (refl, refl)

conforms_tests :
    (problem_of ada stored ≡ none)
    × (problem_of {F = ℕ}
          (obj (member "tags" (arr (cons (str "vip") (cons (num 3) nil))) end))
          brief
        ≡ some (at_name "tags" (at_index 1 expected_string)))
unfolding problem_of
conforms_tests = (refl, refl)

prune_test :
    prune ada brief ≡ obj (member "id" (str "c1") (member "tags" (arr (cons (str "vip") nil)) end))
unfolding prune
prune_test = refl

assignable-conforms_example : problem_of ada shown ≡ none
unfolding assignable problem_of
assignable-conforms_example =
    assignable-conforms never never-one stored shown ada (ground arith) (ground arith) refl refl

assignable_trimmed-prune_example : problem_of (prune ada brief) brief ≡ none
unfolding assignable_trimmed problem_of
assignable_trimmed-prune_example =
    assignable_trimmed-prune never never-one stored brief ada (ground arith) (ground arith)
      (ground arith) (ground arith) refl refl

prune-conforming_example : prune ada stored ≡ ada
unfolding problem_of
prune-conforming_example = prune-conforming ada stored (ground arith) refl
