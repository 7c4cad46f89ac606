-- ===== src/Types/TypeAt.antt =====
-- packages/core/src/values.ts: following a dotted path through a type, and through a value.
use wilanis_js.Common.{ℕ, String, Bool, true, false, not, ◌&&◌, ◌||◌}
use wilanis_js.Common.{Option, none, some, List, [], ◌∷◌, if◌then◌else◌, leb}
use wilanis_js.Types.{Ty, blob, unknown, list, object, var}
use wilanis_js.Types.{Open, closed, open_to, ObjField, field?, blob_handle}
use wilanis_js.Types.Refs.{codes}

-- A read of a type at a path: what is there, and whether it may be missing.
pub record Read : Type 0 where
  pub type : Ty
  pub optional : Bool

-- Why a path leads nowhere; a refusal's text is a constructor with what it names.
pub data Misread : Type 0 where
  forward_whole : String → Ty → Misread
  not_an_index : String → Ty → Misread
  cannot_read : String → Ty → Misread
  no_field : String → Ty → Misread

pub data ReadResult : Type 0 where
  read : Read → ReadResult
  misread : Misread → ReadResult

all_digits : List ℕ → Bool
all_digits [] = true
all_digits (c ∷ rest) = leb b'0' c && leb c b'9' && all_digits rest

-- INDEX: /^[0-9]+$/
is_index_codes : List ℕ → Bool
unfolding all_digits
is_index_codes [] = false
is_index_codes (c ∷ rest) = all_digits (c ∷ rest)

unfoldable pub is_index : String → Bool
unfolding is_index_codes
is_index segment = is_index_codes (codes segment)

unfoldable pub read_field : Option ObjField → Open → Bool → String → Ty → ReadResult
read_field (some f) rest optional segment whole =
    read (record { type = f.type; optional = optional || not f.required })
read_field none (open_to t) optional segment whole = read (record { type = t; optional = true })
read_field none closed optional segment whole = misread (no_field segment whole)

-- `readInto` once a blob is read as its handle.
read_plain : Ty → Bool → String → ReadResult
unfolding read_field
read_plain unknown optional segment = misread (forward_whole segment unknown)
read_plain (var name) optional segment = misread (forward_whole segment (var name))
read_plain (list of max empty) optional segment =
    if is_index segment
    then read (record { type = of; optional = true })
    else misread (not_an_index segment (list of max empty))
read_plain (object name fields rest) optional segment =
    read_field (field? segment fields) rest optional segment (object name fields rest)
read_plain t optional segment = misread (cannot_read segment t)

-- One step of a read: the segment inside what was read so far.
unfoldable pub read_into : Ty → Bool → String → ReadResult
unfolding read_plain
read_into blob optional segment = read_plain blob_handle optional segment
read_into t optional segment = read_plain t optional segment

-- The loop of `typeAt`.
unfoldable pub type_at_from : Ty → Bool → List String → ReadResult
type_at_from t optional [] = read (record { type = t; optional = optional })
type_at_from t optional (segment ∷ path) = elim (read_into t optional segment) [
  | read r ↦ type_at_from r.type r.optional path
  | misread why ↦ misread why
]

unfoldable pub type_at : Ty → List String → ReadResult
unfolding type_at_from
type_at t path = type_at_from t false path
