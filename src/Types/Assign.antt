-- ===== src/Types/Assign.antt =====
-- packages/core/src/assign.ts: assignability. A refusal's text is a constructor with what it names.
use mathlib.Core.Option
use wilanis_js.Common.{String, Bool, true, false, not, ◌&&◌, Option, none, some, List, [], ◌∷◌}
use wilanis_js.Common.{if◌then◌else◌, ◌==◌, first, includes}
use wilanis_js.Types.{Ty, string, number, boolean, blob, unknown, list, object, var, type_ref}
use wilanis_js.Types.{Fields, bare, field, Open, closed, open_to, ObjField, field?, declares}

-- What `assignable` answers where it is not null.
pub data Mismatch : Type 0 where
  not_a_type_reference : Ty → Mismatch
  unknown_cannot_feed : Ty → Mismatch
  is_not : Ty → Ty → Mismatch
  not_an_empty_list : Ty → Mismatch
  string_is_not : Ty → Mismatch
  not_in : List String → Ty → Mismatch
  may_carry_undeclared : Ty → Ty → Mismatch
  not_declared : String → Ty → Mismatch
  missing_required : String → Mismatch
  optional_but_required : String → Mismatch
  at_field : String → Mismatch → Mismatch
  at_extra_field : String → Mismatch → Mismatch
  at_extra_values : Mismatch → Mismatch

-- What neither side of decides: to unknown or a variable, or from a variable.
unfoldable pub unjudged : Ty → Ty → Bool
unjudged from unknown = true
unjudged from (var name) = true
unjudged (var name) to = true
unjudged from to = false

-- `enum.filter(value => !wanted.includes(value))`
unfoldable pub outside : List String → List String → List String
outside wanted [] = []
outside wanted (value ∷ rest) =
    let later = outside wanted rest in if includes wanted value then later else value ∷ later

unfoldable pub refused_values : List String → Ty → Option Mismatch
refused_values [] to = none
refused_values (value ∷ rest) to = some (not_in (value ∷ rest) to)

unfoldable pub assignable_string : Option (List String) → Option (List String) → Option Mismatch
unfolding outside refused_values
assignable_string given none = none
assignable_string none (some wanted) = some (string_is_not (string (some wanted)))
assignable_string (some given) (some wanted) =
    refused_values (outside wanted given) (string (some wanted))

-- `find`: the first field of `from` that `to` does not declare.
unfoldable pub undeclared : Fields → Fields → Option String
undeclared bare to = none
undeclared (field name t required marks rest) to =
    let later = undeclared rest to in if declares to name then later else some name

-- `extra ? ... : null`: the empty text is not true.
unfoldable pub extra_mismatch : Ty → Option String → Option Mismatch
extra_mismatch to none = none
extra_mismatch to (some extra) = if extra == "" then none else some (not_declared extra to)

unfoldable pub closed_extras : Ty → Fields → Open → Ty → Fields → Option Mismatch
unfolding undeclared extra_mismatch
closed_extras from given (open_to u) to fields = some (may_carry_undeclared from to)
closed_extras from given closed to fields = extra_mismatch to (undeclared given fields)

-- One field `to` declares: given by name, or admitted through what `from` is open to. `judge` says
-- whether a type fits the field's.
unfoldable pub assignable_field :
    (Ty → Option Mismatch) → Option ObjField → Open → String → Bool → Option Mismatch
assignable_field judge none (open_to u) name required =
    if required then some (missing_required name) else Option.map (at_field name) (judge u)
assignable_field judge none closed name required =
    if required then some (missing_required name) else none
assignable_field judge (some given) from_open name required =
    if required && not given.required
    then some (optional_but_required name)
    else Option.map (at_field name) (judge given.type)

-- What `from` has beyond `to`'s fields, against what `to` is open to.
unfoldable pub extra_fields : (Ty → Option Mismatch) → Fields → Fields → Option Mismatch
extra_fields judge bare fields = none
extra_fields judge (field name t required marks rest) fields =
    first (if declares fields name then none else Option.map (at_extra_field name) (judge t))
      (extra_fields judge rest fields)

unfoldable pub extra_values : (Ty → Option Mismatch) → Open → Option Mismatch
extra_values judge closed = none
extra_values judge (open_to u) = Option.map at_extra_values (judge u)

unfoldable pub assignable_extras : (Ty → Option Mismatch) → Fields → Open → Fields → Option Mismatch
unfolding extra_fields extra_values
assignable_extras judge given from_open fields =
    first (extra_fields judge given fields) (extra_values judge from_open)

-- `is_same` is `===` on two types: whether they are one object.
module _ (is_same : Ty → Ty → Bool) where
  unfoldable mutual
    unfolding assignable_string closed_extras assignable_field assignable_extras

    -- The one judgement; `trims` says whether a closed object drops what it does not declare.
    pub fits : Bool → Ty → Ty → Option Mismatch
    fits trims from unknown = none
    fits trims from (var name) = none
    fits trims (var name) to = none
    fits trims (string enum) type_ref = none
    fits trims from type_ref = some (not_a_type_reference from)
    fits trims unknown to = some (unknown_cannot_feed to)
    fits trims (string given) (string wanted) = assignable_string given wanted
    fits trims number number = none
    fits trims boolean boolean = none
    fits trims blob blob = none
    fits trims (list given given_max given_empty) (list of max empty) =
        let inner = fits trims given of in
        if given_empty
        then none
        else if empty
        then some (not_an_empty_list (list given given_max given_empty))
        else inner
    fits trims (object from_name given from_open) (object name fields rest) =
        let judged = first (fits_fields trims given from_open fields) (
          fits_rest trims (object from_name given from_open) given from_open
            (object name fields rest) fields rest) in
        if is_same (object from_name given from_open) (object name fields rest)
        then none
        else judged
    fits trims from to = some (is_not from to)

    -- Every field `to` declares.
    pub fits_fields : Bool → Fields → Open → Fields → Option Mismatch
    fits_fields trims given from_open bare = none
    fits_fields trims given from_open (field name t required marks rest) =
        first (assignable_field (λ u. fits trims u t) (field? name given) from_open name required)
          (fits_fields trims given from_open rest)

    -- What `from` has that `to` does not declare.
    pub fits_rest : Bool → Ty → Fields → Open → Ty → Fields → Open → Option Mismatch
    fits_rest trims from given from_open to fields closed =
        if trims then none else closed_extras from given from_open to fields
    fits_rest trims from given from_open to fields (open_to unknown) = none
    fits_rest trims from given from_open to fields (open_to t) =
        assignable_extras (λ u. fits false u t) given from_open fields

  unfoldable pub assignable : Ty → Ty → Option Mismatch
  unfolding fits
  assignable from to = fits false from to

  unfoldable pub assignable_trimmed : Ty → Ty → Option Mismatch
  unfolding fits
  assignable_trimmed from to = fits true from to
