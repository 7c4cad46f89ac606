-- ===== src/Kernel/Redact/Tests.antt =====
-- Values and what a report shows of them.
use wilanis_js.Common.{ℕ, true, String, List, [], ◌∷◌, ◌≡◌, refl, All}
use wilanis_js.Types.{Value, num, str, arr, obj, nil, cons, end, member}
use mathlib.Core.List.{Memᴰ}
use wilanis_js.Common.{none, some, false, ltb, nat_eq}
use wilanis_js.Types.{Floats}
use wilanis_js.Expr.{Coercions}
use wilanis_js.Kernel.Redact.{secret, redact_value, redact_each, shown_read}
use wilanis_js.Kernel.Redact.Hidden.{IsHidden, MeetsNoList, shown_read-IsHidden}
use wilanis_js.Kernel.Redact.Marked.{IsMarked}
use wilanis_js.Kernel.Redact.Shown.{redact_value-AreMarked}

abbrev user : Value ℕ
user = obj (member "name" (str "Ann") (member "token" (str "abc") end))

abbrev answer : Value ℕ
answer = obj (member "users" (arr (cons user (cons (num 3) nil))) (member "key" (str "xyz") end))

abbrev marks : List (List String)
marks = ("users" ∷ "token" ∷ []) ∷ ("key" ∷ []) ∷ ("key" ∷ "part" ∷ []) ∷ []

abbrev shown_user : Value ℕ
shown_user = obj (member "name" (str "Ann") (member "token" secret end))

in_each_element :
    redact_value answer marks
    ≡ obj (member "users" (arr (cons shown_user (cons (num 3) nil))) (member "key" secret end))
unfolding redact_value
in_each_element = refl

whole : redact_value user (("name" ∷ []) ∷ [] ∷ []) ≡ secret
unfolding redact_value
whole = refl

redact_value-AreMarked_example : All (λ path. IsMarked path (redact_value answer marks)) marks
redact_value-AreMarked_example = redact_value-AreMarked answer marks

instance abbrev nat_floats : Floats ℕ
nat_floats = record {
  is_finite = λ n. true;
  same = nat_eq;
  less = ltb;
  of_count = λ n. n;
  of_count_finite = λ n. refl;
}

instance abbrev nat_coercions : Coercions ℕ
nat_coercions = record {
  index_of = λ s. none;
  one_object = λ v w. false;
  truthy_number = λ n. ltb 0 n;
  same_value = nat_eq;
  mixed = λ op v w. false;
}

part_of_key : shown_read (some answer) (some (redact_value answer marks)) ("key" ∷ []) ≡ some secret
unfolding shown_read redact_value
part_of_key = refl

-- What is not there is shown as nothing, under the marker as well.
below_key : shown_read (some answer) (some (redact_value answer marks)) ("key" ∷ "part" ∷ []) ≡ none
unfolding shown_read redact_value
below_key = refl

shown_read-IsHidden_example :
    IsHidden (shown_read (some answer) (some (redact_value answer marks)) ("key" ∷ "part" ∷ []))
unfolding MeetsNoList redact_value
shown_read-IsHidden_example =
    shown_read-IsHidden (some answer) answer ("key" ∷ []) ("part" ∷ []) marks
      (Memᴰ.tail (Memᴰ.head refl)) tt

in_an_element :
    redact_each marks (cons answer (cons user nil))
    ≡ cons (redact_value answer marks) (cons user nil)
unfolding redact_each
in_an_element = refl
