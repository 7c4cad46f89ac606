-- ===== src/Types/Lookup.antt =====
-- Finding a field of a type and a member of an object by name.
use mathlib.Core.Path.{subst}
use mathlib.Core.Option.{some-injective}
use wilanis_js.Common.{String, ◌≡◌, refl, true, some, ◌==◌, Bool-cases, inl, inr, arith}
use wilanis_js.Common.{includes}
use wilanis_js.Types.{Value, Members, end, member, member?, keys, Fields, bare, field, ObjField}
use wilanis_js.Types.{field?, declares, IsKnown, IsKnownFields, IsProper, IsProperMembers}

-- What a field table says of a name is found in it.
pub declares-field? :
    (name : String) (fields : Fields)
    → declares fields name ≡ true
    → (f : ObjField) × (field? name fields ≡ some f)
declares-field? name bare h = cc
declares-field? name (field key t required marks rest) h = elim (Bool-cases (key == name)) [
  | inl e ↦ (record { type = t; required = required }, rw e refl)
  | inr e ↦ rw e (declares-field? name rest (rw e at h))
]

pub field?-declares :
    (name : String) (fields : Fields) (f : ObjField)
    → field? name fields ≡ some f
    → declares fields name ≡ true
field?-declares name bare f h = cc
field?-declares name (field key t required marks rest) f h =
    ground (arith, field?-declares name rest f)

pub IsKnown-field? :
    (name : String) (fields : Fields) (f : ObjField)
    → IsKnownFields fields
    → field? name fields ≡ some f
    → IsKnown f.type
IsKnown-field? name bare f k h = cc
IsKnown-field? name (field key t required marks rest) f k h = elim (Bool-cases (key == name)) [
  | inl e ↦ subst (λ o. IsKnown o.type) (some-injective _ _ (rw e at h)) k.0
  | inr e ↦ IsKnown-field? name rest f k.1 (rw e at h)
]

module _ {F : Type 0} where
  -- A value found under a name is under one of the object's keys.
  pub includes-keys :
      (name : String) (m : Members F) (v : Value F)
      → member? name m ≡ some v
      → includes (keys m) name ≡ true
  includes-keys name end v h = cc
  includes-keys name (member key w rest) v h = ground (arith, includes-keys name rest v)

  pub member?-IsProper :
      (name : String) (m : Members F) (v : Value F)
      → IsProperMembers m
      → member? name m ≡ some v
      → IsProper v
  member?-IsProper name end v p h = cc
  member?-IsProper name (member key w rest) v p h = elim (Bool-cases (key == name)) [
    | inl e ↦ subst IsProper (some-injective w v (rw e at h)) p.1
    | inr e ↦ member?-IsProper name rest v p.2 (rw e at h)
  ]
