-- ===== src/Types/Conform.antt =====
-- packages/core/src/values.ts: whether a value conforms to a type, and pruning a value to a type.
-- A problem's text is a constructor with what it names.
use mathlib.Core.Option
use wilanis_js.Common.{ℕ, suc, String, Bool, true, false, ◌&&◌, Option, none, some, List, [], ◌∷◌}
use wilanis_js.Common.{◌==◌, if◌then◌else◌, ltb, first, includes, length}
use wilanis_js.Types.{Value, bool, num, str, arr, obj, Items, nil, cons, Members, end, member}
use wilanis_js.Types.{
  Floats, Ty, string, number, boolean, blob, unknown, list, object, var, type_ref,
}
use wilanis_js.Types.{Fields, bare, field, Open, closed, open_to, declares, member?, keys, items}
use wilanis_js.Types.{is_type_ref}

pub data Problem : Type 0 where
  expected_type_reference expected_string expected_number expected_boolean : Problem
  expected_blob expected_list expected_object required_here : Problem
  not_among : String → List String → Problem
  at_most : ℕ → Problem
  at_index : ℕ → Problem → Problem
  at_name : String → Problem → Problem
  undeclared_here : Problem

unfoldable pub passes_max : Option ℕ → ℕ → Option Problem
passes_max none count = none
passes_max (some max) count = if ltb max count then some (at_most max) else none

module _ {F : Type 0} where
  is_string : Option (Value F) → Bool
  is_string (some (str s)) = true
  is_string _ = false

  is_number : Option (Value F) → Bool
  is_number (some (num n)) = true
  is_number _ = false

  -- isBlobHandle of types.ts
  unfoldable pub is_blob_handle : Value F → Bool
  unfolding is_string is_number
  is_blob_handle (obj m) =
      is_string (member? "id" m)
      && is_string (member? "contentType" m)
      && is_number (member? "size" m)
  is_blob_handle _ = false

  problem_of_type_ref : Value F → Option Problem
  problem_of_type_ref (str s) = if is_type_ref s then none else some expected_type_reference
  problem_of_type_ref _ = some expected_type_reference

  unfoldable pub problem_of_string : Value F → Option (List String) → Option Problem
  problem_of_string (str s) none = none
  problem_of_string (str s) (some allowed) =
      if includes allowed s then none else some (not_among s allowed)
  problem_of_string v allowed = some expected_string

  problem_of_number : ⦃fl : Floats F⦄ → Value F → Option Problem
  problem_of_number ⦃fl⦄ (num n) = if fl.is_finite n then none else some expected_number
  problem_of_number v = some expected_number

  problem_of_boolean : Value F → Option Problem
  problem_of_boolean (bool b) = none
  problem_of_boolean v = some expected_boolean

  -- The loop of `problemOfList`, from an index on.
  unfoldable pub problem_of_items : (Value F → Option Problem) → ℕ → List (Value F) → Option Problem
  problem_of_items judge index [] = none
  problem_of_items judge index (v ∷ vs) =
      first (Option.map (at_index index) (judge v)) (problem_of_items judge (suc index) vs)

  unfoldable pub problem_of_list : (Value F → Option Problem) → Value F → Option ℕ → Option Problem
  unfolding problem_of_items passes_max
  problem_of_list judge (arr vs) max =
      first (passes_max max (length (items vs))) (problem_of_items judge 0 (items vs))
  problem_of_list judge v max = some expected_list

  -- One declared field: absent is fine unless required; present must conform.
  unfoldable pub problem_of_field :
      (Value F → Option Problem) → Option (Value F) → Bool → Option Problem
  problem_of_field judge none required = if required then some required_here else none
  problem_of_field judge (some v) required = judge v

  -- `object[name]` of a key that the object has, judged.
  unfoldable pub judge_key : (Value F → Option Problem) → Members F → String → Option Problem
  judge_key judge m name = elim (member? name m) [ none ↦ none | some v ↦ judge v ]

-- The loop of `problemOfExtras` over the object's keys.
unfoldable pub problem_of_keys : (String → Option Problem) → Fields → List String → Option Problem
problem_of_keys judge fields [] = none
problem_of_keys judge fields (name ∷ names) =
    first (if declares fields name then none else Option.map (at_name name) (judge name))
      (problem_of_keys judge fields names)

module _ {F : Type 0} where
  -- `value.map`
  unfoldable pub map_items : (Value F → Value F) → Items F → Items F
  map_items f nil = nil
  map_items f (cons v vs) = cons (f v) (map_items f vs)

  -- The loop of `prune`: each entry kept as `f` answers, or dropped.
  unfoldable pub filter_members : (String → Value F → Option (Value F)) → Members F → Members F
  filter_members f end = end
  filter_members f (member name v rest) =
      let later = filter_members f rest in
      elim (f name v) [ none ↦ later | some w ↦ member name w later ]

module _ {F : Type 0} ⦃fl : Floats F⦄ where
  unfoldable mutual
    unfolding problem_of_type_ref problem_of_string problem_of_number problem_of_boolean
        problem_of_list problem_of_field problem_of_keys judge_key is_blob_handle

    -- The first problem of a value against a type.
    pub problem_of : Value F → Ty → Option Problem
    problem_of v unknown = none
    problem_of v (var name) = none
    problem_of v type_ref = problem_of_type_ref v
    problem_of v (string allowed) = problem_of_string v allowed
    problem_of v number = problem_of_number v
    problem_of v boolean = problem_of_boolean v
    problem_of v blob = if is_blob_handle v then none else some expected_blob
    problem_of v (list of max empty) = problem_of_list (λ w. problem_of w of) v max
    problem_of (obj m) (object name fields rest) =
        first (problem_of_fields m fields) (problem_of_extras m fields rest)
    problem_of v (object name fields rest) = some expected_object

    -- The fields the type declares.
    pub problem_of_fields : Members F → Fields → Option Problem
    problem_of_fields m bare = none
    problem_of_fields m (field name t required marks rest) =
        first
          (Option.map (at_name name)
            (problem_of_field (λ v. problem_of v t) (member? name m) required))
          (problem_of_fields m rest)

    -- The keys the type does not declare.
    pub problem_of_extras : Members F → Fields → Open → Option Problem
    problem_of_extras m fields closed =
        problem_of_keys (λ name. some undeclared_here) fields (keys m)
    problem_of_extras m fields (open_to t) =
        problem_of_keys (judge_key (λ v. problem_of v t) m) fields (keys m)

module _ {F : Type 0} where
  unfoldable mutual
    unfolding map_items filter_members

    -- The value with the keys that a closed type does not declare dropped, at every depth.
    pub prune : Value F → Ty → Value F
    prune (arr vs) (list of max empty) = arr (map_items (λ v. prune v of) vs)
    prune (obj m) (object name fields rest) =
        obj (filter_members (λ key v. prune_entry key v rest fields) m)
    prune v t = v

    -- One entry of an object: pruned where declared, kept where the type is open, else dropped.
    pub prune_entry : String → Value F → Open → Fields → Option (Value F)
    prune_entry key v closed bare = none
    prune_entry key v (open_to t) bare = some v
    prune_entry key v rest (field name t required marks fields) = elim (name == key) [
      | true ↦ some (prune v t)
      | false ↦ prune_entry key v rest fields
    ]
