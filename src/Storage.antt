-- ===== src/Storage.antt =====
-- packages/plugin-storage-memory/src/engine.ts and packages/plugin-storage/src/engine.ts: what an
-- engine that keeps records in maps holds and answers.
pub mod Rows
pub mod Write
pub mod Changes
pub mod Lookup
pub mod Alike
pub mod Unique
pub mod Scope
pub mod Refs
pub mod Run
pub mod Read
pub mod Match
pub mod Sorting
pub mod Insertion
pub mod Find
pub mod Sorted
pub mod Ordered
pub mod Answers
mod Tests
mod FindTests
use Prim.Native.String.{◌++◌}
use wilanis_js.Common.{◌≡◌, String, Bool, true, false, not, ◌&&◌, ◌||◌, ◌==◌, Option, none, some}
use wilanis_js.Common.{List, [], ◌∷◌, if◌then◌else◌, every, some_of, length, first}
use wilanis_js.Common.Dict.{Dict, set, delete, values}
use wilanis_js.Common.Dict as Dict
use wilanis_js.Types.{Value, null, bool, num, str, arr, obj}

-- What the engine asks of JavaScript: `Object.is` on two numbers, a number and a list or an object as
-- text (`String`), and a list or an object spelled as JSON with its keys in order (`settled`).
pub record Spelling (F : Type 0) : Type 0 where
  pub same_number : F → F → Bool
  pub number_text : F → String
  pub object_text : Value F → String
  pub settled : Value F → String
  pub same_number_refl : (n : F) → same_number n n ≡ true
  pub same_number_sym : (n m : F) → same_number n m ≡ same_number m n

pub data ScopeValue (F : Type 0) : Type 0 where
  text : String → ScopeValue F
  number : F → ScopeValue F

-- `Record_`, and a caller's scope: a value per scoped column.
abbrev pub Record : Type 0 → Type 0
Record F = Dict (Value F)

abbrev pub Scope : Type 0 → Type 0
Scope F = Dict (ScopeValue F)

-- One row: the record, and the scope it was written under.
pub record Row (F : Type 0) : Type 0 where
  pub record_ : Record F
  pub scope : Option (Scope F)

-- A collection's rows, by the text of their key; and every collection's, by connection/name.
abbrev pub Rows : Type 0 → Type 0
Rows F = Dict (Row F)

abbrev pub Store : Type 0 → Type 0
Store F = Dict (Rows F)

-- A reference: the field `field` of collection `from` holds a key of collection `to`.
pub record Ref : Type 0 where
  pub from : String
  pub field : String
  pub to : String

-- A collection as the engine sees it.
pub record At : Type 0 where
  pub connection : String
  pub name : String
  pub key : String
  pub unique : List (List String)
  pub refs : List Ref
  pub referenced : List Ref

-- A constraint a write would break: the message's text is a constructor with what it names.
pub data Violation : Type 0 where
  unique_of : List String → Violation
  refs_of : Ref → Violation

pub data PutAnswer (F : Type 0) : Type 0 where
  conflict : PutAnswer F
  put_violated : Violation → PutAnswer F
  put_record : Record F → PutAnswer F

pub data PatchAnswer (F : Type 0) : Type 0 where
  nothing_there : PatchAnswer F
  patch_violated : Violation → PatchAnswer F
  patched : Record F → PatchAnswer F
  -- the handler's refusal: a key is never patched
  key_patched : PatchAnswer F

pub data RemoveAnswer (F : Type 0) : Type 0 where
  not_there : RemoveAnswer F
  referenced_by : Record F → Ref → RemoveAnswer F
  removed : Record F → RemoveAnswer F

-- `${connection}/${name}`
unfoldable pub place : String → String → String
place connection name = connection ++ (String.◌∷◌ "/" name)

-- The place of a collection's rows.
abbrev pub home : At → String
home at = place at.connection at.name

-- `records`: a collection is made on first use, without a row; one that is not made reads the same.
abbrev pub made : {F : Type 0} → Option (Rows F) → Rows F
made none = []
made (some rows) = rows

unfoldable pub rows_at : {F : Type 0} → String → Store F → Rows F
rows_at where_ store = made (Dict.get where_ store)

-- The first item that passes.
abbrev pub first_of {ℓ} : {A : Type ℓ} → (A → Bool) → List A → Option A
first_of test [] = none
first_of test (x ∷ xs) = if test x then some x else first_of test xs
