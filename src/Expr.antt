-- ===== src/Expr.antt =====
-- packages/core/src/expr/ast.ts and evaluate.ts: the expressions of switch rules, and what one
-- comes to over a node's input values.
pub mod Check
pub mod Keys
pub mod BlobFree
pub mod Turns
pub mod Reads
pub mod Guard
pub mod Sound
pub mod Typed
pub mod Syntax
mod Tests
use Prim.Native.Char.{code}
use Prim.Native.String
use text.Mathlib.Text.{starts_with}
use wilanis_js.Common.{
  ℕ, ◌+◌, String, Bool, true, false, not, ◌&&◌, ◌||◌, Option, none, some, List, [], ◌∷◌,
}
use wilanis_js.Common.{◌==◌, if◌then◌else◌, leb, ltb, nat_eq, get_elem?, length}
use wilanis_js.Types.{Value, null, bool, num, str, arr, obj, Members, member?, items, Floats}

pub data Comparison : Type 0 where
  eq ne lt le gt ge : Comparison

pub data BinaryOp : Type 0 where
  conj disj member_of contains : BinaryOp
  compare : Comparison → BinaryOp

pub data Literal (F : Type 0) : Type 0 where
  quoted : String → Literal F
  numeral : F → Literal F
  truth : Bool → Literal F

-- A path is its first segment, the input it reads, and the others.
pub data Expr (F : Type 0) : Type 0 where
  lit : Literal F → Expr F
  path : String → List String → Expr F
  has : String → List String → Expr F
  len : Expr F → Expr F
  negate : Expr F → Expr F
  bin : BinaryOp → Expr F → Expr F → Expr F

-- What evaluation asks of JavaScript beyond scalars of one kind: `Number` of a path's segment as an
-- index, the identity of two arrays or objects, whether a number is truthy, `includes` on numbers
-- (where NaN is NaN), and an ordering of values that are not two numbers or two texts.
pub record Coercions (F : Type 0) : Type 0 where
  pub index_of : String → Option ℕ
  pub one_object : Value F → Value F → Bool
  pub truthy_number : F → Bool
  pub same_value : F → F → Bool
  pub mixed : Comparison → Option (Value F) → Option (Value F) → Bool

-- `text.includes(word)`
unfoldable pub includes_text : String → String → Bool
includes_text String.[] word = word == ""
includes_text (String.◌∷◌ c rest) word =
    starts_with (String.◌∷◌ c rest) word || includes_text rest word

-- `<` on texts; code points in place of UTF-16 units.
unfoldable pub text_below : String → String → Bool
text_below left String.[] = false
text_below String.[] (String.◌∷◌ d right) = true
text_below (String.◌∷◌ c left) (String.◌∷◌ d right) =
    ltb (code c) (code d) || (nat_eq (code c) (code d) && text_below left right)

-- `text.length`: UTF-16 units.
unfoldable pub text_length : String → ℕ
text_length String.[] = 0
text_length (String.◌∷◌ c rest) = (if leb 65536 (code c) then 2 else 1) + text_length rest

-- `<`, `<=`, `>` and `>=` on two texts.
order_texts : Comparison → String → String → Bool
unfolding text_below
order_texts lt a b = text_below a b
order_texts le a b = not (text_below b a)
order_texts gt a b = text_below b a
order_texts ge a b = not (text_below a b)
order_texts eq a b = a == b
order_texts ne a b = not (a == b)

-- `value !== undefined`
unfoldable pub is_there : {F : Type 0} → Option (Value F) → Bool
is_there none = false
is_there (some v) = true

module _ {F : Type 0} ⦃fl : Floats F⦄ ⦃js : Coercions F⦄ where
  -- One turn of the loop of `readValue`.
  unfoldable pub read_segment : Option (Value F) → String → Option (Value F)
  read_segment (some (arr vs)) segment = elim (js.index_of segment) [
    | none ↦ none
    | some i ↦ get_elem? (items vs) i
  ]
  read_segment (some (obj m)) segment = member? segment m
  read_segment current segment = none

  unfoldable pub read_segments : Option (Value F) → List String → Option (Value F)
  unfolding read_segment
  read_segments current [] = current
  read_segments current (segment ∷ rest) = read_segments (read_segment current segment) rest

  unfoldable pub read_value : Members F → String → List String → Option (Value F)
  unfolding read_segments
  read_value values root rest = read_segments (member? root values) rest

  -- `Boolean(value)`
  unfoldable pub truthy : Option (Value F) → Bool
  truthy none = false
  truthy (some null) = false
  truthy (some (bool b)) = b
  truthy (some (num n)) = js.truthy_number n
  truthy (some (str s)) = not (s == "")
  truthy (some v) = true

  -- `left === right`
  unfoldable pub strict_equal : Option (Value F) → Option (Value F) → Bool
  strict_equal none none = true
  strict_equal (some null) (some null) = true
  strict_equal (some (bool true)) (some (bool b)) = b
  strict_equal (some (bool false)) (some (bool b)) = not b
  strict_equal (some (num a)) (some (num b)) = fl.same a b
  strict_equal (some (str a)) (some (str b)) = a == b
  strict_equal (some (arr a)) (some (arr b)) = js.one_object (arr a) (arr b)
  strict_equal (some (obj a)) (some (obj b)) = js.one_object (obj a) (obj b)
  strict_equal left right = false

  -- `<`, `<=`, `>` and `>=` on two numbers.
  order_numbers : Comparison → F → F → Bool
  order_numbers lt a b = fl.less a b
  order_numbers le a b = fl.less a b || fl.same a b
  order_numbers gt a b = fl.less b a
  order_numbers ge a b = fl.less b a || fl.same a b
  order_numbers eq a b = fl.same a b
  order_numbers ne a b = not (fl.same a b)

  order : Comparison → Option (Value F) → Option (Value F) → Bool
  unfolding order_numbers order_texts
  order op (some (num a)) (some (num b)) = order_numbers op a b
  order op (some (str a)) (some (str b)) = order_texts op a b
  order op left right = js.mixed op left right

  unfoldable pub compare_values : Comparison → Option (Value F) → Option (Value F) → Bool
  unfolding strict_equal order
  compare_values eq left right = strict_equal left right
  compare_values ne left right = not (strict_equal left right)
  compare_values op left right = order op left right

  -- `list.includes(value)`: as `===`, but that NaN is NaN.
  unfoldable pub includes_value : List (Value F) → Option (Value F) → Bool
  unfolding strict_equal
  includes_value [] v = false
  includes_value (num a ∷ rest) (some (num b)) =
      js.same_value a b || includes_value rest (some (num b))
  includes_value (w ∷ rest) v = strict_equal (some w) v || includes_value rest v

  member_in : Option (Value F) → Option (Value F) → Bool
  unfolding includes_value
  member_in left (some (arr vs)) = includes_value (items vs) left
  member_in left right = false

  -- `holds`: a value that is no text holds no word.
  holds : Option (Value F) → Option (Value F) → Bool
  unfolding includes_text
  holds (some (str s)) (some (str word)) = includes_text s word
  holds _ _ = false

  unfoldable pub length_of : Option (Value F) → F
  unfolding text_length
  length_of (some (arr vs)) = fl.of_count (length (items vs))
  length_of (some (str s)) = fl.of_count (text_length s)
  length_of v = fl.of_count 0

  unfoldable pub literal_value : Literal F → Value F
  literal_value (quoted s) = str s
  literal_value (numeral n) = num n
  literal_value (truth b) = bool b

  -- `evaluateBinary`, over what the two sides come to.
  unfoldable pub binary_value : BinaryOp → Option (Value F) → Option (Value F) → Bool
  unfolding truthy compare_values member_in holds
  binary_value conj left right = truthy left && truthy right
  binary_value disj left right = truthy left || truthy right
  binary_value member_of left right = member_in left right
  binary_value contains left right = holds left right
  binary_value (compare op) left right = compare_values op left right

  -- What an expression comes to; a path that is not there reads as nothing.
  unfoldable pub evaluate : Expr F → Members F → Option (Value F)
  unfolding read_value literal_value is_there length_of binary_value
  evaluate (lit l) values = some (literal_value l)
  evaluate (path root rest) values = read_value values root rest
  evaluate (has root rest) values = some (bool (is_there (read_value values root rest)))
  evaluate (len arg) values = some (num (length_of (evaluate arg values)))
  evaluate (negate arg) values = some (bool (not (truthy (evaluate arg values))))
  evaluate (bin op left right) values =
      some (bool (binary_value op (evaluate left values) (evaluate right values)))

  -- `compilePredicate`, once parsed.
  unfoldable pub predicate : Expr F → Members F → Bool
  unfolding evaluate truthy
  predicate e values = truthy (evaluate e values)
