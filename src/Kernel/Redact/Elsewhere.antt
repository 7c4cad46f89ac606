-- ===== src/Kernel/Redact/Elsewhere.antt =====
-- packages/engine/src/redact.ts: a report shows a value as it is wherever no listed path leads.
use mathlib.Core.Option
use wilanis_js.Common.{String, false, List, [], ◌∷◌, ◌==◌, ◌≡◌, Option, some, ◌⊎◌}
use wilanis_js.Types.{Value, Floats}
use wilanis_js.Expr.{Coercions, read_segments}
use wilanis_js.Kernel.Redact.Hidden.{MeetsNoList}

-- Two paths part: neither is a beginning of the other.
abbrev pub PartsFrom : List String → List String → Type 0
PartsFrom [] path = ⊥
PartsFrom (name ∷ rest) [] = ⊥
PartsFrom (name ∷ rest) (other ∷ path) = ((name == other) ≡ false) ⊎ PartsFrom rest path

module _ {F : Type 0} ⦃fl : Floats F⦄ ⦃js : Coercions F⦄ where
  -- The path reads alike in what `f` makes of a value.
  abbrev ReadsAlike : (Value F → Value F) → List String → Type 0
  ReadsAlike f path =
      (w : Value F)
      → MeetsNoList path w
      → read_segments (some (f w)) path ≡ read_segments (some w) path
