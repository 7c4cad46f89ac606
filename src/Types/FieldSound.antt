-- ===== src/Types/FieldSound.antt =====
-- What assignability says of one field and of one string, at a value that conforms.
use mathlib.Core.Path.{subst}
use mathlib.Core.Option.{some-injective}
use wilanis_js.Common.{String, Bool, ◌≡◌, refl, true, false, Option, none, some, List, [], ◌∷◌}
use wilanis_js.Common.{
  ◌==◌, eq_iff, Bool-cases, Option-cases, inl, inr, arith, includes, first-none,
}
use wilanis_js.Types.{Value, null, bool, num, str, arr, obj, Members, member?, keys, Floats}
use wilanis_js.Types.{Ty, Marks}
use wilanis_js.Types.{Fields, bare, field, Open, closed, open_to, ObjField, field?, declares}
use wilanis_js.Types.{IsKnown, IsKnownFields, IsKnownOpen}
use wilanis_js.Types.Lookup.{declares-field?, IsKnown-field?, includes-keys}
use wilanis_js.Types.Assign.{Mismatch, assignable_field, closed_extras, assignable_extras}
use wilanis_js.Types.Assign.{
  assignable_string, undeclared, extra_mismatch, extra_fields, extra_values, outside,
  refused_values,
}
use wilanis_js.Types.Conform.{
  Problem, undeclared_here, problem_of, problem_of_fields, problem_of_extras, problem_of_field,
}
use wilanis_js.Types.Conform.{judge_key, problem_of_string}
use wilanis_js.Types.Judged.{problem_of_keys-at, problem_of_keys-none, problem_of_fields-at}

-- An enum's values, none of which is outside the wanted ones, are among them.
outside-includes :
    (wanted given : List String) (s : String)
    → outside wanted given ≡ []
    → includes given s ≡ true
    → includes wanted s ≡ true
unfolding outside
outside-includes wanted [] s h i = cc
outside-includes wanted (g ∷ given) s h i =
    ground (arith, outside-includes wanted given s, eq_iff g s)

pub undeclared-declares :
    (given fields : Fields) (name : String)
    → undeclared given fields ≡ none
    → declares given name ≡ true
    → declares fields name ≡ true
unfolding undeclared
undeclared-declares bare fields name h d = cc
undeclared-declares (field key t required marks rest) fields name h d =
    ground (arith, undeclared-declares rest fields name, eq_iff key name)

-- What is found undeclared has a name that is not empty, where the fields have.
undeclared-named :
    (given fields : Fields) (name : String)
    → IsKnownFields given
    → undeclared given fields ≡ some name
    → (name == "") ≡ false
unfolding undeclared
undeclared-named bare fields name k h = cc
undeclared-named (field key t required marks rest) fields name k h =
    elim (Bool-cases (declares fields key)) [
      | inl e ↦ undeclared-named rest fields name k.1 (rw e at h)
      | inr e ↦ subst (λ n. (n == "") ≡ false) (some-injective key name (rw e at h)) k.2
    ]

extra_mismatch-none :
    (to : Ty) (o : Option String)
    → ((name : String) → o ≡ some name → (name == "") ≡ false)
    → extra_mismatch to o ≡ none
    → o ≡ none
unfolding extra_mismatch
extra_mismatch-none to none named h = refl
extra_mismatch-none to (some extra) named h = elim (Bool-cases (extra == "")) [
  | inl e ↦ (let named_so = named extra refl in cc)
  | inr e ↦ (let gone = rw e at h in cc)
]

extra_fields-head :
    (judge : Ty → Option Mismatch) (key : String) (t : Ty) (required : Bool) (marks : Marks)
    (rest fields : Fields)
    → extra_fields judge (field key t required marks rest) fields ≡ none
    → declares fields key ≡ false
    → judge t ≡ none
unfolding extra_fields
extra_fields-head judge key t required marks rest fields h d = ground arith

pub extra_fields-at :
    (judge : Ty → Option Mismatch) (given fields : Fields) (name : String) (f : ObjField)
    → extra_fields judge given fields ≡ none
    → field? name given ≡ some f
    → declares fields name ≡ false
    → judge f.type ≡ none
unfolding extra_fields
extra_fields-at judge bare fields name f h e d = cc
extra_fields-at judge (field key t required marks rest) fields name f h e d =
    elim (Bool-cases (key == name)) [
      | inl same ↦
          subst (λ g. judge g.type ≡ none)
            (some-injective (record { type = t; required = required }) f (rw same at e))
            (extra_fields-head judge key t required marks rest fields h
              (rw ((eq_iff key name).0 same) d))
      | inr other ↦ extra_fields-at judge rest fields name f (ground arith) (rw other at e) d
    ]

field?-none :
    (name : String) (fields : Fields) → field? name fields ≡ none → declares fields name ≡ false
field?-none name fields h = elim (Bool-cases (declares fields name)) [
  | inl d ↦ let (f, e) = declares-field? name fields d in cc
  | inr d ↦ d
]

refused_values-none : (values : List String) (t : Ty) → refused_values values t ≡ none → values ≡ []
unfolding refused_values
refused_values-none [] t h = refl
refused_values-none (value ∷ rest) t h = cc

module _ {F : Type 0} where
  pub string_sound :
      (v : Value F) (given wanted : Option (List String))
      → assignable_string given wanted ≡ none
      → problem_of_string v given ≡ none
      → problem_of_string v wanted ≡ none
  unfolding assignable_string problem_of_string
  string_sound (str s) none none h c = refl
  string_sound (str s) (some given) none h c = refl
  string_sound (str s) none (some wanted) h c = cc
  string_sound (str s) (some given) (some wanted) h c =
      rw (outside-includes wanted given s (refused_values-none _ _ h) (ground arith))
  string_sound null given wanted h c = cc
  string_sound (bool b) given wanted h c = cc
  string_sound (num n) given wanted h c = cc
  string_sound (arr vs) given wanted h c = cc
  string_sound (obj m) given wanted h c = cc

module _ {F : Type 0} ⦃fl : Floats F⦄ where
  declared_field :
      (judge : Ty → Option Mismatch) (goal : Value F → Option Problem) (o : Option (Value F))
      (from_open : Open) (name : String) (required : Bool) (g : ObjField)
      → (judge g.type ≡ none
          → (v : Value F) → o ≡ some v
          → problem_of v g.type ≡ none
          → goal v ≡ none)
      → problem_of_field (λ v. problem_of v g.type) o g.required ≡ none
      → assignable_field judge (some g) from_open name required ≡ none
      → problem_of_field goal o required ≡ none
  unfolding assignable_field problem_of_field
  declared_field judge goal none from_open name required g mono c ok = ground arith
  declared_field judge goal (some v) from_open name required g mono c ok =
      mono (ground arith) v refl c

  -- A key that a conforming object has beyond its type's fields.
  pub extra_key :
      (m : Members F) (given : Fields) (u : Ty) (name : String) (v : Value F)
      → problem_of_extras m given (open_to u) ≡ none
      → declares given name ≡ false
      → member? name m ≡ some v
      → problem_of v u ≡ none
  unfolding problem_of judge_key
  extra_key m given u name v extras d e =
      rw (e, judge_key) at
        (problem_of_keys-at (judge_key (λ w. problem_of w u) m) given (keys m) name extras
          (includes-keys name m v e) d)

  -- A closed object has no key beyond its type's fields.
  pub no_extra_key :
      (m : Members F) (given : Fields) (name : String)
      → problem_of_extras m given closed ≡ none
      → includes (keys m) name ≡ true
      → declares given name ≡ true
  unfolding problem_of
  no_extra_key m given name extras i = elim (Bool-cases (declares given name)) [
    | inl d ↦ d
    | inr d ↦ cc (problem_of_keys-at (λ k. some undeclared_here) given (keys m) name extras i d)
  ]

  undeclared_field :
      (judge : Ty → Option Mismatch) (goal : Value F → Option Problem) (m : Members F)
      (given : Fields) (from_open : Open) (name : String) (required : Bool) (o : Option (Value F))
      → ((u : Ty)
          → IsKnown u
          → judge u ≡ none
          → (v : Value F) → o ≡ some v
          → problem_of v u ≡ none
          → goal v ≡ none)
      → IsKnownOpen from_open
      → problem_of_extras m given from_open ≡ none
      → declares given name ≡ false
      → member? name m ≡ o
      → assignable_field judge none from_open name required ≡ none
      → problem_of_field goal o required ≡ none
  unfolding assignable_field problem_of_field
  undeclared_field judge goal m given closed name required none ih ko extras d e ok = ground arith
  undeclared_field judge goal m given (open_to u) name required none ih ko extras d e ok =
      ground arith
  undeclared_field judge goal m given closed name required (some v) ih ko extras d e ok =
      cc (no_extra_key m given name extras (includes-keys name m v e))
  undeclared_field judge goal m given (open_to u) name required (some v) ih ko extras d e ok =
      ih u ko (ground arith) v refl (extra_key m given u name v extras d e)

  -- What `from` and `to` say of one field, at a value that conforms to `from`: `goal` is what is
  -- to hold of the value under the field's name.
  pub field_sound :
      (judge : Ty → Option Mismatch) (goal : Value F → Option Problem) (m : Members F)
      (given : Fields) (from_open : Open) (name : String) (required : Bool)
      → ((u : Ty)
          → IsKnown u
          → judge u ≡ none
          → (v : Value F) → member? name m ≡ some v
          → problem_of v u ≡ none
          → goal v ≡ none)
      → IsKnownFields given
      → IsKnownOpen from_open
      → problem_of_fields m given ≡ none
      → problem_of_extras m given from_open ≡ none
      → assignable_field judge (field? name given) from_open name required ≡ none
      → problem_of_field goal (member? name m) required ≡ none
  field_sound judge goal m given from_open name required ih kf ko fields extras ok =
      elim (Option-cases (field? name given)) [
        | inr (g, found) ↦
            declared_field judge goal (member? name m) from_open name required g
              (ih g.type (IsKnown-field? name given g kf found))
              (problem_of_fields-at m given name g fields found) (rw found at ok)
        | inl missing ↦
            undeclared_field judge goal m given from_open name required (member? name m) ih ko
              extras (field?-none name given missing) refl (rw missing at ok)
      ]

  -- The keys that `to` does not declare, where `to` is closed.
  pub closed_extras_sound :
      (m : Members F) (from to : Ty) (given fields : Fields) (from_open : Open)
      → IsKnownFields given
      → problem_of_extras m given from_open ≡ none
      → closed_extras from given from_open to fields ≡ none
      → problem_of_extras m fields closed ≡ none
  unfolding problem_of closed_extras
  closed_extras_sound m from to given fields (open_to u) known extras ok = cc
  closed_extras_sound m from to given fields closed known extras ok =
      let all_declared =
        extra_mismatch-none to (undeclared given fields)
          (λ name. undeclared-named given fields name known) ok in
      problem_of_keys-none (λ k. some undeclared_here) fields (keys m)
        λ name i d. cc (
          d,
          undeclared-declares given fields name all_declared (no_extra_key m given name extras i),
        )

  extra_value_sound :
      (judge : Ty → Option Mismatch) (t : Ty) (m : Members F) (given : Fields) (from_open : Open)
      (name : String) (v : Value F)
      → ((u : Ty)
          → IsKnown u
          → judge u ≡ none
          → (w : Value F) → problem_of w u ≡ none
          → problem_of w t ≡ none)
      → IsKnownOpen from_open
      → problem_of_extras m given from_open ≡ none
      → declares given name ≡ false
      → member? name m ≡ some v
      → extra_values judge from_open ≡ none
      → problem_of v t ≡ none
  unfolding extra_values
  extra_value_sound judge t m given closed name v ih ko extras d e ok =
      cc (d, no_extra_key m given name extras (includes-keys name m v e))
  extra_value_sound judge t m given (open_to u) name v ih ko extras d e ok =
      ih u ko (ground arith) v (extra_key m given u name v extras d e)

  -- The keys that `to` does not declare, against what `to` is open to.
  pub open_extras_sound :
      (judge : Ty → Option Mismatch) (t : Ty) (m : Members F) (given fields : Fields)
      (from_open : Open)
      → ((u : Ty)
          → IsKnown u
          → judge u ≡ none
          → (v : Value F) → problem_of v u ≡ none
          → problem_of v t ≡ none)
      → IsKnownFields given
      → IsKnownOpen from_open
      → problem_of_fields m given ≡ none
      → problem_of_extras m given from_open ≡ none
      → assignable_extras judge given from_open fields ≡ none
      → (name : String) (v : Value F) → member? name m ≡ some v
      → declares fields name ≡ false
      → problem_of v t ≡ none
  unfolding assignable_extras problem_of_field
  open_extras_sound judge t m given fields from_open ih kf ko conform extras ok name v e d =
      elim (Bool-cases (declares given name)) [
        | inl known ↦
            let (g, found) = declares-field? name given known in
            ih g.type (IsKnown-field? name given g kf found)
              (extra_fields-at judge given fields name g (first-none _ _ ok).0 found d) v
              (rw e at (problem_of_fields-at m given name g conform found))
        | inr extra ↦
            extra_value_sound judge t m given from_open name v ih ko extras extra e
              (first-none (extra_fields judge given fields) (extra_values judge from_open) ok).1
      ]
