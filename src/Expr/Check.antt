-- ===== src/Expr/Check.antt =====
-- packages/core/src/expr/check.ts: the type of an expression over the types of a node's inputs.
-- A refusal's text is a constructor with what it names.
use wilanis_js.Common.{ℕ, zero, suc, String, Bool, true, false, not, ◌&&◌, ◌||◌, ◌==◌}
use wilanis_js.Common.{Option, none, some, List, [], ◌∷◌, ◌++◌, if◌then◌else◌, includes, length}
use wilanis_js.Common.{take, drop}
use wilanis_js.Common.Dict.{Dict, get}
use wilanis_js.Types.{Ty, string, number, boolean, blob, unknown, list, object, var, type_ref}
use wilanis_js.Types.TypeAt.{Read, Misread, read, misread, type_at}
use wilanis_js.Expr.{Literal, quoted, numeral, truth, Expr, lit, path, has, len, negate, bin}
use wilanis_js.Expr.{BinaryOp, conj, disj, member_of, contains, compare, Comparison, eq, ne}
use wilanis_js.Expr.Keys.{join}

-- What an input is typed as, and whether it may be missing.
pub record Input : Type 0 where
  pub type : Ty
  pub optional : Bool

pub data ExprError : Type 0 where
  not_an_input : String → ExprError
  misread_at : String → List String → Misread → ExprError
  may_be_missing : String → List String → ExprError
  len_takes not_takes takes_booleans : Ty → ExprError
  in_looks_into in_looks_for contains_looks_into : Ty → ExprError
  never_in cannot_compare : Ty → Ty → ExprError
  word_not_written word_not_text word_empty : ExprError
  orders compares_scalars : Ty → ExprError

pub data Checked : Type 0 where
  typed : Ty → Checked
  refused : ExprError → Checked

pub data ReadAt : Type 0 where
  located : Read → ReadAt
  nowhere : ExprError → ReadAt

-- What follows a check that did not throw.
unfoldable pub and_then : Checked → (Ty → Checked) → Checked
and_then (typed t) next = next t
and_then (refused why) next = refused why

-- `type.kind`
unfoldable pub kind : Ty → String
kind (string enum) = "string"
kind number = "number"
kind boolean = "boolean"
kind blob = "blob"
kind unknown = "unknown"
kind (list of max empty) = "list"
kind (object name fields rest) = "object"
kind (var name) = "var"
kind type_ref = "type"

-- `kind === 'unknown'`
unfoldable pub same_kind_or_unknown : Ty → Ty → Bool
unfolding kind
same_kind_or_unknown left right =
    kind left == kind right || kind left == "unknown" || kind right == "unknown"

unfoldable pub compound : Ty → Bool
unfolding kind
compound t = kind t == "object" || kind t == "list"

unfoldable pub proved_by : {F : Type 0} → Expr F → List String
proved_by (has root rest) = join root rest ∷ []
proved_by (bin conj left right) = proved_by left ++ proved_by right
proved_by e = []

-- The loop of `provedFrom`, from so many segments after the first down to none.
unfoldable pub proved_from_at : ℕ → String → List String → List String → Option ℕ
unfolding join
proved_from_at zero root rest proved = if includes proved root then some zero else none
proved_from_at (suc k) root rest proved =
    let shorter = proved_from_at k root rest proved in
    if includes proved (join root (take (suc k) rest)) then some (suc k) else shorter

-- How many segments after the first the longest proved prefix has.
unfoldable pub proved_from : String → List String → List String → Option ℕ
unfolding proved_from_at
proved_from root rest proved = proved_from_at (length rest) root rest proved

-- The two reads of `readAt`: up to the proved prefix, and past it.
unfoldable pub read_past : Input → ℕ → Bool → String → List String → ReadAt
read_past input start optional root rest = elim (type_at input.type (take start rest)) [
  | misread why ↦ nowhere (misread_at root rest why)
  | read base ↦ elim (type_at base.type (drop start rest)) [
    | misread why ↦ nowhere (misread_at root rest why)
    | read r ↦ located (record { type = r.type; optional = optional || r.optional })
  ]
]

unfoldable pub read_at : String → List String → Dict Input → List String → ReadAt
unfolding proved_from read_past
read_at root rest inputs proved = elim (get root inputs) [
  | none ↦ nowhere (not_an_input root)
  | some input ↦ elim (proved_from root rest proved) [
    | none ↦ read_past input 0 input.optional root rest
    | some start ↦ read_past input start false root rest
  ]
]

unfoldable pub literal_type : {F : Type 0} → Literal F → Ty
literal_type (quoted s) = string none
literal_type (numeral n) = number
literal_type (truth b) = boolean

unfoldable pub has_type : ReadAt → Checked
has_type (nowhere why) = refused why
has_type (located r) = typed boolean

unfoldable pub path_type : String → List String → ReadAt → Checked
path_type root rest (nowhere why) = refused why
path_type root rest (located r) =
    if r.optional then refused (may_be_missing root rest) else typed r.type

unfoldable pub len_type : Ty → Checked
unfolding kind
len_type arg =
    if kind arg == "list" || kind arg == "string" then typed number else refused (len_takes arg)

unfoldable pub not_type : Ty → Checked
unfolding kind
not_type arg = if kind arg == "boolean" then typed boolean else refused (not_takes arg)

unfoldable pub logical_type : Ty → Ty → Checked
unfolding kind
logical_type left right =
    if kind left == "boolean" && kind right == "boolean"
    then typed boolean
    else refused (takes_booleans left)

unfoldable pub element_type : Ty → Ty
element_type (list of max empty) = of
element_type t = unknown

unfoldable pub membership_type : Ty → Ty → Checked
unfolding kind same_kind_or_unknown element_type compound
membership_type left right =
    if not (kind right == "list" || kind right == "unknown")
    then refused (in_looks_into right)
    else if not (same_kind_or_unknown left (element_type right))
    then refused (never_in left right)
    else if compound left
    then refused (in_looks_for left)
    else typed boolean

unfoldable pub word_type : {F : Type 0} → Expr F → Checked
word_type (lit (quoted s)) = if s == "" then refused word_empty else typed boolean
word_type (lit l) = refused word_not_text
word_type e = refused word_not_written

unfoldable pub contains_type : {F : Type 0} → Ty → Expr F → Checked
unfolding kind word_type
contains_type left right =
    if kind left == "string" || kind left == "unknown"
    then word_type right
    else refused (contains_looks_into left)

-- `ORDERINGS.includes(op)`
unfoldable pub ordering : Comparison → Bool
ordering eq = false
ordering ne = false
ordering op = true

-- ORDERABLE
unfoldable pub orderable : Ty → Bool
unfolding kind
orderable t = includes ("number" ∷ "string" ∷ "unknown" ∷ []) (kind t)

unfoldable pub comparison_type : Comparison → Ty → Ty → Checked
unfolding same_kind_or_unknown ordering orderable compound
comparison_type op left right =
    if not (same_kind_or_unknown left right)
    then refused (cannot_compare left right)
    else if ordering op && not (orderable left)
    then refused (orders left)
    else if not (ordering op) && compound left
    then refused (compares_scalars left)
    else typed boolean

-- What `binaryType` answers once both sides are typed.
unfoldable pub binary_type : BinaryOp → Ty → Ty → Checked
unfolding logical_type membership_type comparison_type
binary_type conj left right = logical_type left right
binary_type disj left right = logical_type left right
binary_type member_of left right = membership_type left right
binary_type (compare op) left right = comparison_type op left right
binary_type contains left right = typed boolean

-- What the right of an operator may take as proved.
unfoldable pub widened : {F : Type 0} → BinaryOp → Expr F → List String → List String
unfolding proved_by
widened conj left proved = proved ++ proved_by left
widened op left proved = proved

unfoldable pub check : {F : Type 0} → Expr F → Dict Input → List String → Checked
unfolding read_at literal_type has_type path_type len_type not_type contains_type binary_type
    widened and_then
check (lit l) inputs proved = typed (literal_type l)
check (has root rest) inputs proved = has_type (read_at root rest inputs proved)
check (path root rest) inputs proved = path_type root rest (read_at root rest inputs proved)
check (len arg) inputs proved = and_then (check arg inputs proved) len_type
check (negate arg) inputs proved = and_then (check arg inputs proved) not_type
check (bin contains left right) inputs proved =
    and_then (check left inputs proved) (λ t. contains_type t right)
check (bin op left right) inputs proved =
    and_then (check left inputs proved)
      (λ l. and_then (check right inputs (widened op left proved)) (λ r. binary_type op l r))
