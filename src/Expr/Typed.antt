-- ===== src/Expr/Typed.antt =====
-- packages/core/src/expr: what an expression that `check` types comes to conforms to its type.
use mathlib.Core.Path.{subst}
use wilanis_js.Common.{String, Bool, true, false, not, ◌≡◌, refl, Option, none, some, List}
use wilanis_js.Common.{if◌then◌else◌, length, ◌==◌, ◌||◌, ◌&&◌}
use wilanis_js.Common.Dict.{Dict}
use wilanis_js.Types.{Value, bool, num, str, arr, Members, Floats, Ty, boolean, number, items}
use wilanis_js.Types.Conform.{problem_of, problem_of_string}
use wilanis_js.Expr.{Coercions, Expr, lit, path, has, len, negate, bin, BinaryOp, conj, disj}
use wilanis_js.Expr.{
  member_of, contains, compare, evaluate, is_there, read_value, length_of, text_length,
}
use wilanis_js.Expr.{Literal, quoted, numeral, truth, literal_value}
use wilanis_js.Expr.Check.{
  Input, ExprError, Checked, typed, refused, check, ReadAt, located, nowhere, read_at, has_type,
}
use wilanis_js.Expr.Check.{
  len_type, not_type, binary_type, logical_type, membership_type, comparison_type,
}
use wilanis_js.Expr.Check.{
  word_type, contains_type, literal_type, widened, kind, same_kind_or_unknown, compound, ordering,
  orderable, element_type, word_empty,
}
use wilanis_js.Expr.Guard.{ArePathsDotless, AreThere}
use wilanis_js.Expr.Sound.{and_then-typed, path_type-typed, allowed, read_at-Fits, AreAsTyped}

-- Checks that answer one type or refuse.
Only : Ty → Checked → Type 0
Only t checked = (u : Ty) → checked ≡ typed u → t ≡ u

Only-typed : (t : Ty) → Only t (typed t)
unfolding Only
Only-typed t u h = cc

Only-unless :
    (c : Bool) (t : Ty) (why : ExprError) (checked : Checked)
    → Only t checked
    → Only t (if c then refused why else checked)
unfolding Only
Only-unless true t why checked only u h = cc
Only-unless false t why checked only u h = only u h

Only-if :
    (c : Bool) (t : Ty) (why : ExprError) (checked : Checked)
    → Only t checked
    → Only t (if c then checked else refused why)
unfolding Only
Only-if c t why checked only u h = only u (allowed c checked why u h)

len_type-Only : (arg : Ty) → Only number (len_type arg)
unfolding len_type
len_type-Only arg = Only-if _ number _ _ (Only-typed number)

not_type-Only : (arg : Ty) → Only boolean (not_type arg)
unfolding not_type
not_type-Only arg = Only-if _ boolean _ _ (Only-typed boolean)

binary_type-Only : (op : BinaryOp) (left right : Ty) → Only boolean (binary_type op left right)
unfolding binary_type logical_type membership_type comparison_type
binary_type-Only conj left right = Only-if _ boolean _ _ (Only-typed boolean)
binary_type-Only disj left right = Only-if _ boolean _ _ (Only-typed boolean)
binary_type-Only contains left right = Only-typed boolean
binary_type-Only member_of left right =
    Only-unless (not (kind right == "list" || kind right == "unknown")) boolean _ _ (
      Only-unless (not (same_kind_or_unknown left (element_type right))) boolean _ _
        (Only-unless (compound left) boolean _ _ (Only-typed boolean)))
binary_type-Only (compare op) left right =
    Only-unless (not (same_kind_or_unknown left right)) boolean _ _ (
      Only-unless (ordering op && not (orderable left)) boolean _ _
        (Only-unless (not (ordering op) && compound left) boolean _ _ (Only-typed boolean)))

word_type-Only : {F : Type 0} (e : Expr F) → Only boolean (word_type e)
unfolding Only word_type
word_type-Only (lit (quoted s)) u h =
    Only-unless (s == "") boolean word_empty (typed boolean) (Only-typed boolean) u h
word_type-Only (lit (numeral n)) u h = cc
word_type-Only (lit (truth b)) u h = cc
word_type-Only (path root rest) u h = cc
word_type-Only (has root rest) u h = cc
word_type-Only (len e) u h = cc
word_type-Only (negate e) u h = cc
word_type-Only (bin op left right) u h = cc

contains_type-Only : {F : Type 0} (left : Ty) (e : Expr F) → Only boolean (contains_type left e)
unfolding contains_type
contains_type-Only left e = Only-if _ boolean _ _ (word_type-Only e)

has_type-Only : (found : ReadAt) → Only boolean (has_type found)
unfolding has_type Only
has_type-Only (nowhere why) u h = cc
has_type-Only (located r) u h = cc

-- A check that types an operator answers a boolean.
bin-boolean :
    {F : Type 0} (op : BinaryOp) (left right : Expr F) (inputs : Dict Input) (proved : List String)
    (t : Ty)
    → check (bin op left right) inputs proved ≡ typed t
    → boolean ≡ t
unfolding check Only
bin-boolean contains left right inputs proved t h =
    let (u, _, e) = and_then-typed (check left inputs proved) _ t h in
    contains_type-Only u right t e
bin-boolean op left right inputs proved t h =
    let (u, _, e) = and_then-typed (check left inputs proved) _ t h in
    let (w, _, e') = and_then-typed (check right inputs (widened op left proved)) _ t e in
    binary_type-Only op u w t e'

bool-conforms :
    (F : Type 0) ⦃fl : Floats F⦄ (b : Bool) (t : Ty)
    → boolean ≡ t
    → problem_of {F = F} (bool b) t ≡ none
unfolding problem_of
bool-conforms F b t same = subst (λ u. problem_of {F = F} (bool b) u ≡ none) same refl

module _ {F : Type 0} ⦃fl : Floats F⦄ ⦃js : Coercions F⦄ where
  there-some : (o : Option (Value F)) → is_there o ≡ true → (w : Value F) × (o ≡ some w)
  unfolding is_there
  there-some none h = cc
  there-some (some w) h = (w, refl)

  -- `Number.isFinite` of a numeral that stands alone; the grammar has numerals of any length.
  abbrev pub IsLiteralFinite : Expr F → Type 0
  IsLiteralFinite (lit (numeral n)) = fl.is_finite n ≡ true
  IsLiteralFinite e = Unit

  length_of-finite : (v : Option (Value F)) → problem_of (num (length_of v)) number ≡ none
  unfolding length_of problem_of
  length_of-finite (some (arr vs)) = rw (fl.of_count_finite (length (items vs))) refl
  length_of-finite (some (str s)) = rw (fl.of_count_finite (text_length s)) refl
  length_of-finite v = rw (fl.of_count_finite 0) refl

  literal-conforms :
      (l : Literal F)
      → IsLiteralFinite (lit l)
      → problem_of (literal_value l) (literal_type l) ≡ none
  unfolding literal_value literal_type problem_of problem_of_string
  literal-conforms (quoted s) finite = refl
  literal-conforms (numeral n) finite = rw finite refl
  literal-conforms (truth b) finite = refl

  -- Where an expression is typed, its paths are of segments without a dot, the values are as
  -- their inputs are typed (no type with a blob in it), what was taken as proved is there, and a
  -- numeral that stands alone is finite, the expression comes to a value, which conforms to the
  -- type that the check answers.
  pub check-conforms :
      (e : Expr F) (inputs : Dict Input) (proved : List String) (values : Members F) (t : Ty)
      → AreAsTyped inputs values
      → AreThere proved values
      → ArePathsDotless e
      → IsLiteralFinite e
      → check e inputs proved ≡ typed t
      → (w : Value F) × (evaluate e values ≡ some w) × (problem_of w t ≡ none)
  unfolding check evaluate problem_of Only
  check-conforms (lit l) inputs proved values t fit there dotless finite h = (
    _,
    refl,
    subst (λ s. problem_of (literal_value l) s ≡ none) (Only-typed (literal_type l) t h)
        (literal-conforms l finite),
  )
  check-conforms (path root rest) inputs proved values t fit there dotless finite h =
      let (r, e, sure, same) = path_type-typed root rest (read_at root rest inputs proved) t h in
      let (conforms, found) = read_at-Fits root rest inputs proved values r fit there dotless e in
      let (w, is) = there-some (read_value values root rest) (found sure) in
      (w, is, subst (λ u. problem_of w u ≡ none) same (conforms w is))
  check-conforms (has root rest) inputs proved values t fit there dotless finite h =
      (_, refl, bool-conforms F _ t (has_type-Only (read_at root rest inputs proved) t h))
  check-conforms (len arg) inputs proved values t fit there dotless finite h =
      let (u, _, e) = and_then-typed (check arg inputs proved) _ t h in
      (
        _,
        refl,
        subst (λ s. problem_of (num (length_of (evaluate arg values))) s ≡ none)
            (len_type-Only u t e) (length_of-finite (evaluate arg values)),
      )
  check-conforms (negate arg) inputs proved values t fit there dotless finite h =
      let (u, _, e) = and_then-typed (check arg inputs proved) _ t h in
      (_, refl, bool-conforms F _ t (not_type-Only u t e))
  check-conforms (bin op left right) inputs proved values t fit there dotless finite h =
      (_, refl, bool-conforms F _ t (bin-boolean op left right inputs proved t h))
