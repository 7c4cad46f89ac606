-- ===== src/Types/Refs.antt =====
-- The grammar of a type reference, TYPE_REF of packages/core/src/types.ts, over code points.
use Prim.Native.Char.{code}
use mathlib.Core.List.{reverse}
use wilanis_js.Common.{◌≡◌, refl, ℕ, String, Bool, List, [], ◌∷◌, map, true, false, not, ◌&&◌, ◌||◌}
use wilanis_js.Common.{nat_eq, leb, if◌then◌else◌, every}

abbrev pub codes : String → List ℕ
codes String.[] = []
codes (String.◌∷◌ c s) = code c ∷ codes s

same_codes : List ℕ → List ℕ → Bool
same_codes [] [] = true
same_codes (a ∷ left) (b ∷ right) = nat_eq a b && same_codes left right
same_codes _ _ = false

in_range : ℕ → ℕ → ℕ → Bool
in_range low high c = leb low c && leb c high

-- [A-Za-z0-9]
alphanumeric : ℕ → Bool
unfolding in_range
alphanumeric c = in_range b'A' b'Z' c || in_range b'a' b'z' c || in_range b'0' b'9' c

-- [A-Za-z0-9_.-]
path_char : ℕ → Bool
unfolding alphanumeric
path_char c = alphanumeric c || nat_eq c b'_' || nat_eq c b'.' || nat_eq c b'-'

-- `((?:\[\])*)$`: the reference read from its end, without the brackets that close it.
strip_brackets : List ℕ → List ℕ
strip_brackets (a ∷ b ∷ rest) =
    let inner = strip_brackets rest in
    if nat_eq a b']' && nat_eq b b'[' then inner else a ∷ b ∷ rest
strip_brackets rest = rest

-- [A-Za-z0-9_.-]*(?:\/[A-Za-z0-9_.-]+)*, where the first argument says whether a slash, which
-- wants a character after it, was just read.
segments : Bool → List ℕ → Bool
unfolding path_char
segments after_slash [] = not after_slash
segments after_slash (c ∷ rest) =
    (if nat_eq c b'/' then not after_slash else path_char c) && segments (nat_eq c b'/') rest

-- What stands before `.json`: `@`, then the segments.
shape_body : List ℕ → Bool
unfolding segments
shape_body [] = false
shape_body (at ∷ path) = nat_eq at b'@' && segments false path

-- The shape's path between `@` and `.json`, given the text from its end; no path where the text
-- does not end in `.json`.
is_shape_path : List ℕ → Bool
unfolding shape_body
is_shape_path (n ∷ o ∷ s ∷ j ∷ dot ∷ rest) =
    nat_eq n b'n'
    && nat_eq o b'o'
    && nat_eq s b's'
    && nat_eq j b'j'
    && nat_eq dot b'.'
    && shape_body (reverse rest)
is_shape_path _ = false

one_of : List (List ℕ) → List ℕ → Bool
unfolding same_codes
one_of [] text = false
one_of (word ∷ words) text = same_codes word text || one_of words text

scalar_words : List (List ℕ)
scalar_words = map codes ("string" ∷ "number" ∷ "boolean" ∷ "blob" ∷ "unknown" ∷ "type" ∷ [])

-- The base of a reference, given from its end too: a scalar, a variable or a shape's path.
is_base : List ℕ → List ℕ → Bool
unfolding one_of scalar_words alphanumeric in_range is_shape_path
is_base (c ∷ d ∷ rest) backwards =
    if nat_eq c b'$'
    then in_range b'A' b'Z' d && every alphanumeric rest
    else if nat_eq c b'@'
    then is_shape_path backwards
    else one_of scalar_words (c ∷ d ∷ rest)
is_base _ backwards = false

-- `TYPE_REF.test(value)`
unfoldable pub is_type_ref : String → Bool
unfolding strip_brackets is_base
is_type_ref value =
    let backwards = strip_brackets (reverse (codes value)) in is_base (reverse backwards) backwards

is_type_ref_tests :
    map is_type_ref (
      "string[][]" ∷ "$Item[]" ∷ "@customers/edge/CustomerView.shape.json" ∷ "@customers//View.json"
      ∷ "string[]]" ∷ "$item" ∷ [])
    ≡ true ∷ true ∷ true ∷ false ∷ false ∷ false ∷ []
unfolding is_type_ref
is_type_ref_tests = refl
