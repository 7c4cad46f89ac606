-- ===== src/Storage/Match.antt =====
-- packages/plugin-storage-memory/src/match.ts: a filter, an ordering and a page, as the engine reads
-- them.
use text.Mathlib.Text.{starts_with}
use wilanis_js.Common.{◌≡◌, String, Bool, true, false, not, ◌&&◌, ◌||◌, Option, none, some}
use wilanis_js.Common.{List, [], ◌∷◌, every}
use wilanis_js.Common.Dict as Dict
use wilanis_js.Types.{Value, null, bool, num, arr, items}
use wilanis_js.Expr.{Coercions, strict_equal, includes_value, includes_text}
use wilanis_js.Types.{Floats}
use wilanis_js.Storage.{Spelling, Record}
use wilanis_js.Storage.Rows.{text_of}

-- Less, equal or more, as the sign of what a comparison answers.
pub data Sign : Type 0 where
  less equal more : Sign

is_less : Sign → Bool
is_less less = true
is_less sign = false

unfoldable pub is_more : Sign → Bool
is_more more = true
is_more sign = false

unfoldable pub opposite : Sign → Sign
opposite less = more
opposite equal = equal
opposite more = less

-- What `localeCompare` answers, and the sign of the difference of two numbers (records are JSON, which
-- has no NaN); either turns round with its arguments, and is transitive.
pub record Collation (F : Type 0) : Type 0 where
  pub locale_compare : String → String → Sign
  pub difference : F → F → Sign
  pub locale_compare_turned : (s t : String) → locale_compare t s ≡ opposite (locale_compare s t)
  pub difference_turned : (n m : F) → difference m n ≡ opposite (difference n m)
  pub locale_compare_transitive :
      (s t u : String)
      → is_more (locale_compare s t) ≡ false
      → is_more (locale_compare t u) ≡ false
      → is_more (locale_compare s u) ≡ false
  pub difference_transitive :
      (n m k : F)
      → is_more (difference n m) ≡ false
      → is_more (difference m k) ≡ false
      → is_more (difference n k) ≡ false

unfoldable pub bool_difference : Bool → Bool → Sign
bool_difference true true = equal
bool_difference false false = equal
bool_difference true false = more
bool_difference false true = less

-- `answer * (one.dir === 'desc' ? -1 : 1)`
unfoldable pub directed : Bool → Sign → Sign
unfolding opposite
directed true answer = opposite answer
directed false answer = answer

-- One ordering's answer, or the next ordering's where it ties.
unfoldable pub untied : Sign → Sign → Sign
untied equal next = next
untied answer next = answer

pub data Operator : Type 0 where
  eq ne lt lte gt gte in_list not_in has contains starts : Operator

pub record Test (F : Type 0) : Type 0 where
  pub op : Operator
  pub value : Value F

mutual
  pub data Where (F : Type 0) : Type 0 where
    all : Wheres F → Where F
    any : Wheres F → Where F
    negated : Where F → Where F
    field : String → List (Test F) → Where F

  pub data Wheres (F : Type 0) : Type 0 where
    done : Wheres F
    and_also : Where F → Wheres F → Wheres F

pub record Order : Type 0 where
  pub by : String
  pub descending : Bool

module _ {F : Type 0} ⦃fl : Floats F⦄ ⦃js : Coercions F⦄ ⦃sp : Spelling F⦄ ⦃co : Collation F⦄ where
  -- `String(value ?? '')`
  unfoldable pub text_or_empty : Option (Value F) → String
  unfolding text_of
  text_or_empty none = ""
  text_or_empty (some null) = ""
  text_or_empty (some v) = text_of (some v)

  unfoldable pub compare : Option (Value F) → Option (Value F) → Sign
  unfolding text_or_empty bool_difference
  compare (some (num n)) (some (num m)) = co.difference n m
  compare (some (bool b)) (some (bool c)) = bool_difference b c
  compare left right = co.locale_compare (text_or_empty left) (text_or_empty right)

  -- `list(test.value).includes(value)`
  listed : Value F → Option (Value F) → Bool
  unfolding includes_value
  listed (arr vs) value = includes_value (items vs) value
  listed other value = false

  passes : Test F → Option (Value F) → Bool
  unfolding strict_equal compare is_less is_more listed text_or_empty includes_text
  passes test value = elim test.op [
    | eq ↦ strict_equal value (some test.value)
    | ne ↦ not (strict_equal value (some test.value))
    | lt ↦ is_less (compare value (some test.value))
    | lte ↦ not (is_more (compare value (some test.value)))
    | gt ↦ is_more (compare value (some test.value))
    | gte ↦ not (is_less (compare value (some test.value)))
    | in_list ↦ listed test.value value
    | not_in ↦ not (listed test.value value)
    | has ↦
        strict_equal (some (bool (elim value [ none ↦ false | some v ↦ true ]))) (some test.value)
    | contains ↦ includes_text (text_or_empty value) (text_or_empty (some test.value))
    | starts ↦ starts_with (text_or_empty value) (text_or_empty (some test.value))
  ]

  mutual
    unfolding passes

    matches_one : Where F → Record F → Bool
    matches_one (all of) r = matches_all of r
    matches_one (any of) r = matches_any of r
    matches_one (negated of) r = not (matches_one of r)
    matches_one (field name tests) r = every (λ test. passes test (Dict.get name r)) tests

    matches_all : Wheres F → Record F → Bool
    matches_all done r = true
    matches_all (and_also one rest) r = matches_one one r && matches_all rest r

    matches_any : Wheres F → Record F → Bool
    matches_any done r = false
    matches_any (and_also one rest) r = matches_one one r || matches_any rest r

  -- No filter asks for every record.
  unfoldable pub matches : Option (Where F) → Record F → Bool
  unfolding matches_one
  matches none r = true
  matches (some where_) r = matches_one where_ r

  -- The comparison that `ordered` sorts by: the first ordering that does not tie.
  unfoldable pub compare_records : List Order → Record F → Record F → Sign
  unfolding compare untied directed
  compare_records [] left right = equal
  compare_records (one ∷ rest) left right =
      untied (directed one.descending (compare (Dict.get one.by left) (Dict.get one.by right)))
        (compare_records rest left right)
