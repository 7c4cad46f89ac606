-- ===== src/Kernel/Redact.antt =====
-- packages/engine/src/redact.ts: the copy of a value that a report shows. A value is one that is there, and no
-- paths are as good as an empty list of them.
pub mod Marked
pub mod Shown
pub mod Hidden
pub mod Elsewhere
mod Tests
use wilanis_js.Common.{String, Bool, true, false, List, [], ◌∷◌, ◌==◌, if◌then◌else◌}
use wilanis_js.Common.{Option, none, some, ◌||◌}
use wilanis_js.Expr.{Coercions, read_segment, read_segments}
use wilanis_js.Types.{Floats}
use wilanis_js.Types.{Value, null, bool, num, str, arr, obj, Items, nil, cons, Members, end, member}

module _ {F : Type 0} where
  -- SECRET
  abbrev pub secret : Value F
  secret = str "«secret»"

  unfoldable mutual
    -- `redactAt` but for what becomes of a value under the field: an object that has the field has the field
    -- replaced, a list each of its elements walked.
    pub redact_in : String → (Value F → Value F) → Value F → Value F
    redact_in name f (arr vs) = arr (redact_elements name f vs)
    redact_in name f (obj m) = obj (replace_field name f m)
    redact_in name f null = null
    redact_in name f (bool b) = bool b
    redact_in name f (num n) = num n
    redact_in name f (str s) = str s

    pub redact_elements : String → (Value F → Value F) → Items F → Items F
    redact_elements name f nil = nil
    redact_elements name f (cons v vs) = cons (redact_in name f v) (redact_elements name f vs)

    -- `record[field] = ...`, where `field in record`.
    pub replace_field : String → (Value F → Value F) → Members F → Members F
    replace_field name f end = end
    replace_field name f (member key v m) =
        let later = replace_field name f m in
        if key == name then member key (f v) m else member key v later

  -- `redactAt`, of a path by its first field and the others.
  unfoldable pub redact_at : String → List String → Value F → Value F
  unfolding redact_in
  redact_at name [] v = redact_in name (λ w. secret) v
  redact_at name (field ∷ rest) v = redact_in name (redact_at field rest) v

  -- `redactValue`
  unfoldable pub redact_value : Value F → List (List String) → Value F
  unfolding redact_at
  redact_value v [] = v
  redact_value v ([] ∷ paths) = secret
  redact_value v ((name ∷ rest) ∷ paths) = redact_value (redact_at name rest v) paths

  -- `redactEach`
  unfoldable pub redact_each : List (List String) → Items F → Items F
  unfolding redact_value
  redact_each paths nil = nil
  redact_each paths (cons v vs) = cons (redact_value v paths) (redact_each paths vs)

-- `=== SECRET`
abbrev pub is_secret : {F : Type 0} → Option (Value F) → Bool
is_secret (some (str s)) = s == "«secret»"
is_secret o = false

module _ {F : Type 0} ⦃fl : Floats F⦄ ⦃js : Coercions F⦄ where
  -- The loop of `shownRead`: whether the path, but for its end, walks into the marker.
  unfoldable pub meets_secret : Option (Value F) → List String → Bool
  unfolding read_segment
  meets_secret shown [] = false
  meets_secret shown (segment ∷ rest) =
      is_secret shown || meets_secret (read_segment shown segment) rest

  -- `shownRead`
  unfoldable pub shown_read : Option (Value F) → Option (Value F) → List String → Option (Value F)
  unfolding read_segments meets_secret
  shown_read value shown path = elim (read_segments value path) [
    | none ↦ none
    | some v ↦ if meets_secret shown path then some secret else read_segments shown path
  ]
