-- ===== src/Kernel.antt =====
-- packages/engine/src/spec.ts and sources.ts: the sources that a graph's nodes read, and what one
-- yields over the values settled so far.
pub mod Plan
pub mod Needs
pub mod Inverse
pub mod Waits
pub mod Run
pub mod Report
pub mod Outcome
pub mod Redact
mod Tests
use Prim.Native.String as Text
use wilanis_js.Common.{String, Option, none, some, List, [], ◌∷◌, if◌then◌else◌, includes, ◌++◌}
use wilanis_js.Common.Dict.{Dict, get}
use wilanis_js.Types.{Value, null, str, arr, obj, Items, nil, cons, Members, end, member, Floats}
use wilanis_js.Expr.{Coercions, read_segments}

-- `KSource`; `Named` is `Record<string, KSource>`, `Parts` the parts of interpolated text.
mutual
  pub data Source (F : Type 0) : Type 0 where
    ref : String → List String → Source F
    list : Sources F → Source F
    object : Named F → Source F
    value : Value F → Source F
    concat : Parts F → Source F

  pub data Sources (F : Type 0) : Type 0 where
    done : Sources F
    then_source : Source F → Sources F → Sources F

  pub data Named (F : Type 0) : Type 0 where
    nothing_more : Named F
    named : String → Source F → Named F → Named F

  pub data Parts (F : Type 0) : Type 0 where
    no_more : Parts F
    literal : String → Parts F → Parts F
    interpolated : Source F → Parts F → Parts F

-- `Reader`, with `String` of a value that is not null.
pub record Reader (F : Type 0) : Type 0 where
  pub at_path : String → List String → Option (Value F)
  pub text_read : Option (String → Value F)
  pub spell : Value F → String

-- `Set.add`
unfoldable pub add : String → List String → List String
add name out = if includes out name then out else out ++ name ∷ []

-- PSEUDO
abbrev pub pseudo : List String
pseudo = "in" ∷ "const" ∷ "context" ∷ []

module _ {F : Type 0} where
  unfoldable mutual
    unfolding add

    -- Every node id, or pseudo-node, that a source reads, after those in `out`.
    pub refs_of : Source F → List String → List String
    refs_of (ref name path) out = add name out
    refs_of (list parts) out = refs_of_list parts out
    refs_of (object sources) out = refs_of_named sources out
    refs_of (value v) out = out
    refs_of (concat parts) out = refs_of_parts parts out

    pub refs_of_list : Sources F → List String → List String
    refs_of_list done out = out
    refs_of_list (then_source s rest) out = refs_of_list rest (refs_of s out)

    pub refs_of_named : Named F → List String → List String
    refs_of_named nothing_more out = out
    refs_of_named (named key s rest) out = refs_of_named rest (refs_of s out)

    pub refs_of_parts : Parts F → List String → List String
    refs_of_parts no_more out = out
    refs_of_parts (literal text rest) out = refs_of_parts rest out
    refs_of_parts (interpolated s rest) out = refs_of_parts rest (refs_of s out)

  -- An element is left out where its value is undefined.
  unfoldable pub keep_item : Option (Value F) → Items F → Items F
  keep_item none rest = rest
  keep_item (some v) rest = cons v rest

  -- A key is left out where its value is undefined.
  unfoldable pub keep_member : String → Option (Value F) → Members F → Members F
  keep_member key none rest = rest
  keep_member key (some v) rest = member key v rest

  -- `String(value ?? '')`
  unfoldable pub spelled : (Value F → String) → Option (Value F) → String
  spelled spell none = ""
  spelled spell (some null) = ""
  spelled spell (some v) = spell v

  -- Interpolated text, as the reader reads such text.
  unfoldable pub read_text : Option (String → Value F) → String → Value F
  read_text none joined = str joined
  read_text (some read) joined = read joined

  unfoldable mutual
    unfolding keep_item keep_member spelled read_text

    -- The value a source yields; a key that is named twice does not occur in a JavaScript object.
    pub read_source : Source F → Reader F → Option (Value F)
    read_source (value v) r = some v
    read_source (ref name path) r = r.at_path name path
    read_source (list parts) r = some (arr (read_list parts r))
    read_source (concat parts) r = some (read_text r.text_read (joined parts r))
    read_source (object sources) r = some (obj (read_all sources r))

    pub read_list : Sources F → Reader F → Items F
    read_list done r = nil
    read_list (then_source s rest) r = keep_item (read_source s r) (read_list rest r)

    pub read_all : Named F → Reader F → Members F
    read_all nothing_more r = end
    read_all (named key s rest) r = keep_member key (read_source s r) (read_all rest r)

    pub joined : Parts F → Reader F → String
    joined no_more r = ""
    joined (literal text rest) r = Text.◌++◌ text (joined rest r)
    joined (interpolated s rest) r = Text.◌++◌ (spelled r.spell (read_source s r)) (joined rest r)

-- `readerOf`, over the values settled so far.
unfoldable pub reader_of :
    {F : Type 0} ⦃fl : Floats F⦄ ⦃js : Coercions F⦄ → (Value F → String) → Dict (Value F) → Reader F
reader_of spell values = record {
  at_path = λ name path. read_segments (get name values) path;
  text_read = none;
  spell = spell;
}
