-- ===== src/Storage/FindTests.antt =====
-- Runs of find and count of the memory engine, and their theorems at a concrete query.
use wilanis_js.Common.{ℕ, ◌≡◌, refl, true, false, Option, none, some, List, [], ◌∷◌, nat_eq, ltb}
use wilanis_js.Common.{if◌then◌else◌, length, All, arith}
use wilanis_js.Common.Dict as Dict
use wilanis_js.Types.{Floats, num}
use wilanis_js.Expr.{Coercions}
use wilanis_js.Storage.{Spelling, Row, Store, At, place}
use wilanis_js.Storage.Match.{
  Collation, Sign, less, equal, more, opposite, Where, field, gte, Order,
}
use wilanis_js.Storage.Find.{Query, find, count, find-count}
use wilanis_js.Storage.Sorting.{Sorting, AreInTurn}
use wilanis_js.Storage.Insertion.{sorted, insertion}
use wilanis_js.Storage.Sorted.{AreOfOneKind, numbers, kind_of}
use wilanis_js.Storage.Ordered.{MayPrecede, unordered, page, find-IsInOrder}
use wilanis_js.Storage.Match.{is_more}
use wilanis_js.Storage.{Record}
use mathlib.Core.List.{Permᴰ}
use wilanis_js.Common.{All-at}
use wilanis_js.Storage.Answers.{IsAskedFor, find-AreAskedFor}

instance abbrev nat_floats : Floats ℕ
nat_floats = record {
  is_finite = λ n. true;
  same = nat_eq;
  less = ltb;
  of_count = λ n. n;
  of_count_finite = λ n. refl;
}

instance abbrev nat_coercions : Coercions ℕ
nat_coercions = record {
  index_of = λ s. none;
  one_object = λ v w. false;
  truthy_number = λ n. ltb 0 n;
  same_value = nat_eq;
  mixed = λ op v w. false;
}

nat_eq_refl : (n : ℕ) → nat_eq n n ≡ true
nat_eq_refl n = ground arith

nat_eq_sym : (n m : ℕ) → nat_eq n m ≡ nat_eq m n
nat_eq_sym n m = ground arith

instance abbrev nat_spelling : Spelling ℕ
nat_spelling = record {
  same_number = nat_eq;
  number_text = λ n. "a number";
  object_text = λ v. "an object";
  settled = λ v. "settled";
  same_number_refl = nat_eq_refl;
  same_number_sym = nat_eq_sym;
}

abbrev difference : ℕ → ℕ → Sign
difference n m = if ltb n m then less else if ltb m n then more else equal

difference_turned : (n m : ℕ) → difference m n ≡ opposite (difference n m)
unfolding opposite
difference_turned n m = ground arith

equal_turned : equal ≡ opposite equal
unfolding opposite
equal_turned = refl

never_more : is_more equal ≡ false
unfolding is_more
never_more = refl

difference_transitive :
    (n m k : ℕ)
    → is_more (difference n m) ≡ false
    → is_more (difference m k) ≡ false
    → is_more (difference n k) ≡ false
unfolding is_more
difference_transitive n m k h h' = ground arith

-- Texts that all tie.
instance abbrev nat_collation : Collation ℕ
nat_collation = record {
  locale_compare = λ s t. equal;
  difference = difference;
  locale_compare_turned = λ s t. equal_turned;
  difference_turned = difference_turned;
  locale_compare_transitive = λ s t u h k. never_more;
  difference_transitive = difference_transitive;
}

instance abbrev nat_sorting : Sorting ℕ
nat_sorting = insertion ℕ

abbrev counters : At
counters = record {
  connection = "db";
  name = "counters";
  key = "id";
  unique = [];
  refs = [];
  referenced = [];
}

abbrev counter : ℕ → Row ℕ
counter n = record { record_ = ("hits", num n) ∷ []; scope = none }

abbrev stored : Store ℕ
stored = ("db/counters", ("a", counter 7) ∷ ("b", counter 2) ∷ ("c", counter 5) ∷ []) ∷ []

abbrev at_least : ℕ → Option (Where ℕ)
at_least n = some (field "hits" (record { op = gte; value = num n } ∷ []))

abbrev by_hits : List Order
by_hits = record { by = "hits"; descending = true } ∷ []

abbrev first_page : Query ℕ
first_page = record {
  where_ = at_least 3;
  order = by_hits;
  limit = some 1;
  offset = some 1;
  scope = none;
}

found : find counters first_page stored ≡ (("hits", num 5) ∷ []) ∷ []
unfolding find Dict.get Dict.values place sorted
found = refl

counted : count counters (at_least 3) none stored ≡ 2
unfolding count Dict.get Dict.values place
counted = refl

find-count_example :
    length (
      find counters
        (record { where_ = at_least 3; order = by_hits; limit = none; offset = none; scope = none })
        stored)
    ≡ count counters (at_least 3) none stored
find-count_example = find-count counters (at_least 3) by_hits none stored

all_numbers : AreOfOneKind by_hits (find counters (unordered first_page) stored)
unfolding find Dict.get Dict.values place
all_numbers = (
  (
    numbers,
    λ r i.
        All-at (λ one. kind_of (Dict.get "hits" one) ≡ numbers)
          ((counter 7).record_ ∷ (counter 5).record_ ∷ []) r (refl, (refl, tt)) i,
  ),
  tt,
)

find-IsInOrder_example :
    (whole : List (Record ℕ)) × Permᴰ whole (find counters (unordered first_page) stored)
    × AreInTurn (MayPrecede by_hits) whole
    × (find counters first_page stored ≡ page (some 1) (some 1) whole)
find-IsInOrder_example = find-IsInOrder counters first_page stored all_numbers

find-AreAskedFor_example :
    All (IsAskedFor counters first_page stored) (find counters first_page stored)
find-AreAskedFor_example = find-AreAskedFor counters first_page stored
