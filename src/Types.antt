-- ===== src/Types.antt =====
-- packages/core/src/types.ts and values.ts: the types a tree is judged by, and the JSON values
-- that they classify.
pub mod Refs
pub mod Lookup
pub mod Judged
pub mod Assign
pub mod Conform
pub mod TypeAt
pub mod FieldSound
pub mod Sound
pub mod Entries
pub mod Prune
pub mod Pruned
pub mod Trim
mod Tests
use wilanis_js.Common.{ℕ, String, Bool, Option, List, [], ◌∷◌, none, some, ◌==◌, if◌then◌else◌}
use wilanis_js.Common.{◌≡◌, true, false, includes}
pub use Refs.{is_type_ref}

-- What the tree's values are made of. A number is of a type `F` that stands for the doubles.
-- JavaScript's `undefined` is no value here: a read of what is not there is `none`.
mutual
  pub data Value (F : Type 0) : Type 0 where
    null : Value F
    bool : Bool → Value F
    num : F → Value F
    str : String → Value F
    arr : Items F → Value F
    obj : Members F → Value F

  pub data Items (F : Type 0) : Type 0 where
    nil : Items F
    cons : Value F → Items F → Items F

  pub data Members (F : Type 0) : Type 0 where
    end : Members F
    member : String → Value F → Members F → Members F

-- What the source asks of the doubles, as an interface.
pub record Floats (F : Type 0) : Type 0 where
  pub is_finite : F → Bool
  pub same : F → F → Bool
  pub less : F → F → Bool
  pub of_count : ℕ → F
  pub of_count_finite : (n : ℕ) → is_finite (of_count n) ≡ true

-- The marks of a field that no judgement reads: `secret`, and what the compiler provides.
pub record Marks : Type 0 where
  pub secret : Bool
  pub provided : Option String

-- `Type` of types.ts; `Fields` is `Record<string, ObjField>`, in the order declared, and `Open`
-- is `false | Type`.
mutual
  pub data Ty : Type 0 where
    string : Option (List String) → Ty
    number boolean blob unknown : Ty
    -- `of`, `max`, `empty`
    list : Ty → Option ℕ → Bool → Ty
    object : Option String → Fields → Open → Ty
    var : String → Ty
    type_ref : Ty

  pub data Fields : Type 0 where
    bare : Fields
    -- the name, its type, whether it is required, its marks
    field : String → Ty → Bool → Marks → Fields → Fields

  pub data Open : Type 0 where
    closed : Open
    open_to : Ty → Open

-- A declared field, as `fields[name]` reads it.
pub record ObjField : Type 0 where
  pub type : Ty
  pub required : Bool

abbrev pub field? : String → Fields → Option ObjField
field? name bare = none
field? name (field key t required marks rest) =
    if key == name then some (record { type = t; required = required }) else field? name rest

-- `name in fields`
abbrev pub declares : Fields → String → Bool
declares bare name = false
declares (field key t required marks rest) name = if key == name then true else declares rest name

abbrev pub unmarked : Marks
unmarked = record { secret = false; provided = none }

-- BLOB_HANDLE: what a read into a blob sees.
abbrev pub blob_handle : Ty
blob_handle =
    object (some "blob")
      (field "id" (string none) true unmarked (
        field "contentType" (string none) true unmarked
          (field "size" number true unmarked (field "filename" (string none) false unmarked bare))))
      closed

-- EMPTY_LIST: the type of a literal `[]`.
abbrev pub empty_list : Ty
empty_list = list unknown none true

abbrev pub is_empty_list : Ty → Bool
is_empty_list (list of max empty) = empty
is_empty_list _ = false

module _ {F : Type 0} where
  -- `object[name]`, `none` where it is undefined
  abbrev pub member? : String → Members F → Option (Value F)
  member? name end = none
  member? name (member key v rest) = if key == name then some v else member? name rest

  -- `Object.keys(object)`
  abbrev pub keys : Members F → List String
  keys end = []
  keys (member key v rest) = key ∷ keys rest

  abbrev pub items : Items F → List (Value F)
  items nil = []
  items (cons v vs) = v ∷ items vs

-- A type that says what it holds: no variable, no list of a literal `[]`, and no field named by the empty text.
abbrev mutual
  pub IsKnown : Ty → Type 0
  IsKnown (list of max empty) = (empty ≡ false) × IsKnown of
  IsKnown (object name fields rest) = IsKnownFields fields × IsKnownOpen rest
  IsKnown (var name) = ⊥
  IsKnown _ = Unit

  pub IsKnownFields : Fields → Type 0
  IsKnownFields bare = Unit
  IsKnownFields (field name t required marks rest) =
      IsKnown t × IsKnownFields rest × ((name == "") ≡ false)

  pub IsKnownOpen : Open → Type 0
  IsKnownOpen closed = Unit
  IsKnownOpen (open_to t) = IsKnown t

-- A type that assignability judges whole: no list is bounded, and none is a type reference.
abbrev mutual
  pub IsUnbounded : Ty → Type 0
  IsUnbounded (list of max empty) = (max ≡ none) × IsUnbounded of
  IsUnbounded (object name fields rest) = IsUnboundedFields fields × IsUnboundedOpen rest
  IsUnbounded type_ref = ⊥
  IsUnbounded _ = Unit

  pub IsUnboundedFields : Fields → Type 0
  IsUnboundedFields bare = Unit
  IsUnboundedFields (field name t required marks rest) = IsUnbounded t × IsUnboundedFields rest

  pub IsUnboundedOpen : Open → Type 0
  IsUnboundedOpen closed = Unit
  IsUnboundedOpen (open_to t) = IsUnbounded t

-- The keys of every object in a value are distinct, as JavaScript's are.
abbrev mutual
  pub IsProper : {F : Type 0} → Value F → Type 0
  IsProper (arr vs) = IsProperItems vs
  IsProper (obj m) = IsProperMembers m
  IsProper _ = Unit

  pub IsProperItems : {F : Type 0} → Items F → Type 0
  IsProperItems nil = Unit
  IsProperItems (cons v vs) = IsProper v × IsProperItems vs

  pub IsProperMembers : {F : Type 0} → Members F → Type 0
  IsProperMembers end = Unit
  IsProperMembers (member key v rest) =
      (includes (keys rest) key ≡ false) × IsProper v × IsProperMembers rest

-- The fields of every object type in a type have distinct names, as JavaScript's keys do.
abbrev mutual
  pub IsDistinct : Ty → Type 0
  IsDistinct (list of max empty) = IsDistinct of
  IsDistinct (object name fields rest) = IsDistinctFields fields × IsDistinctOpen rest
  IsDistinct _ = Unit

  pub IsDistinctFields : Fields → Type 0
  IsDistinctFields bare = Unit
  IsDistinctFields (field name t required marks rest) =
      (declares rest name ≡ false) × IsDistinct t × IsDistinctFields rest

  pub IsDistinctOpen : Open → Type 0
  IsDistinctOpen closed = Unit
  IsDistinctOpen (open_to t) = IsDistinct t
