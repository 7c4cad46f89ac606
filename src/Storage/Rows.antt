-- ===== src/Storage/Rows.antt =====
-- packages/plugin-storage-memory/src/engine.ts and match.ts: which rows a call sees, what two values
-- being one means, and the reads that a write is judged by.
use wilanis_js.Common.{String, Bool, true, false, not, ◌&&◌, ◌==◌, Option, none, some}
use wilanis_js.Common.{List, [], ◌∷◌, if◌then◌else◌, every, some_of}
use wilanis_js.Common.Dict.{Dict, set, delete, values}
use wilanis_js.Common.Dict as Dict
use wilanis_js.Types.{Value, null, bool, num, str, arr, obj}
use wilanis_js.Storage.{Spelling, ScopeValue, text, number, Record, Scope, Row, Rows, Store, At}
use wilanis_js.Storage.{place, rows_at, first_of}

module _ {F : Type 0} ⦃js : Spelling F⦄ where
  -- `Object.is(row.scope?.[column], value)`
  unfoldable pub same_scope_value : Option (ScopeValue F) → ScopeValue F → Bool
  same_scope_value (some (text s)) (text t) = s == t
  same_scope_value (some (number n)) (number m) = js.same_number n m
  same_scope_value held value = false

  -- `row.scope?.[column]`
  unfoldable pub scope_column : Option (Scope F) → String → Option (ScopeValue F)
  scope_column none column = none
  scope_column (some scope) column = Dict.get column scope

  unfoldable pub within : Row F → Option (Scope F) → Bool
  unfolding same_scope_value scope_column
  within row none = true
  within row (some scope) =
      every (λ (column, value). same_scope_value (scope_column row.scope column) value) scope

  -- `String(value)`
  unfoldable pub text_of : Option (Value F) → String
  text_of none = "undefined"
  text_of (some null) = "null"
  text_of (some (bool b)) = if b then "true" else "false"
  text_of (some (num n)) = js.number_text n
  text_of (some (str s)) = s
  text_of (some v) = js.object_text v

  -- `sameValue` of match.ts: one scalar, or lists or objects that are spelled alike.
  unfoldable pub same_value : Option (Value F) → Option (Value F) → Bool
  same_value none none = true
  same_value (some null) (some null) = true
  same_value (some (bool b)) (some (bool c)) = if b then c else not c
  same_value (some (num n)) (some (num m)) = js.same_number n m
  same_value (some (str s)) (some (str t)) = s == t
  same_value (some (arr v)) (some (arr w)) = js.settled (arr v) == js.settled (arr w)
  same_value (some (arr v)) (some (obj w)) = js.settled (arr v) == js.settled (obj w)
  same_value (some (obj v)) (some (arr w)) = js.settled (obj v) == js.settled (arr w)
  same_value (some (obj v)) (some (obj w)) = js.settled (obj v) == js.settled (obj w)
  same_value left right = false

  -- The row under that key if it is within the scope.
  unfoldable pub row : String → String → Option (Scope F) → Store F → Option (Row F)
  unfolding within rows_at
  row where_ key scope store = elim (Dict.get key (rows_at where_ store)) [
    | none ↦ none
    | some found ↦ if within found scope then some found else none
  ]

  -- `rowsIn`
  unfoldable pub rows_in : List (Row F) → Option (Scope F) → List (Row F)
  unfolding within
  rows_in [] scope = []
  rows_in (r ∷ rest) scope =
      let later = rows_in rest scope in if within r scope then r ∷ later else later

  -- Whether two records hold the same under every field of a constraint.
  unfoldable pub agrees : List String → Record F → Record F → Bool
  unfolding same_value
  agrees fields other r =
      every (λ field. same_value (Dict.get field other) (Dict.get field r)) fields

  -- The records that `repeats` compares with: those under another key, within the scope.
  unfoldable pub others : String → Option (Scope F) → Rows F → List (Record F)
  unfolding within
  others key scope [] = []
  others key scope ((under, r) ∷ rest) =
      let later = others key scope rest in
      if not (under == key) && within r scope then r.record_ ∷ later else later

  unfoldable pub repeats : At → Record F → Option (Scope F) → Store F → Option (List String)
  unfolding others agrees text_of rows_at place
  repeats at r scope store =
      first_of
        (λ fields.
          some_of (λ other. agrees fields other r)
            (others (text_of (Dict.get at.key r)) scope
              (rows_at (place at.connection at.name) store)))
        at.unique

  -- A field that holds a key: neither undefined nor null.
  unfoldable pub held_key : Option (Value F) → Option String
  unfolding text_of
  held_key none = none
  held_key (some null) = none
  held_key (some v) = some (text_of (some v))

  -- `beside(at, name).has(key)`
  unfoldable pub has_key : String → String → String → Store F → Bool
  unfolding rows_at place
  has_key connection name key store = elim (Dict.get key (rows_at (place connection name) store)) [
    | none ↦ false
    | some r ↦ true
  ]

  unfoldable pub get : At → Value F → Option (Scope F) → Store F → Option (Record F)
  unfolding row text_of place
  get at key scope store =
      elim (row (place at.connection at.name) (text_of (some key)) scope store) [
        | none ↦ none
        | some found ↦ some found.record_
      ]
