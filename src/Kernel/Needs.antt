-- ===== src/Kernel/Needs.antt =====
-- packages/engine/src/sources.ts: what a source yields depends on nothing but what it reads.
use mathlib.Core.Path.{ap₂}
use Prim.Native.String as Text
use wilanis_js.Common.{◌≡◌, refl, ap, String, true, some, List, [], ◌∷◌, ◌++◌}
use wilanis_js.Common.{includes, eq_iff, arith}
use wilanis_js.Types.{arr, obj}
use wilanis_js.Kernel.{Source, ref, list, object, value, concat, Sources, done, then_source}
use wilanis_js.Kernel.{
  Named, nothing_more, named, Parts, no_more, literal, interpolated, Reader, add,
}
use wilanis_js.Kernel.{refs_of, refs_of_list, refs_of_named, refs_of_parts, read_source, read_list}
use wilanis_js.Kernel.{read_all, joined, keep_item, keep_member, spelled, read_text}

includes-snoc :
    (xs : List String) (name k : String)
    → includes xs k ≡ true
    → includes (xs ++ name ∷ []) k ≡ true
includes-snoc [] name k h = cc
includes-snoc (x ∷ xs) name k h = ground (arith, includes-snoc xs name k)

pub includes-last : (xs : List String) (name : String) → includes (xs ++ name ∷ []) name ≡ true
includes-last [] name = ground (arith, eq_iff name name)
includes-last (x ∷ xs) name = ground (arith, includes-last xs name)

pub add-keeps :
    (name : String) (out : List String) (k : String)
    → includes out k ≡ true
    → includes (add name out) k ≡ true
unfolding add
add-keeps name out k h = ground (arith, includes-snoc out name k)

pub add-includes : (name : String) (out : List String) → includes (add name out) name ≡ true
unfolding add
add-includes name out = ground (arith, includes-last out name)

module _ {F : Type 0} where
  mutual
    unfolding refs_of

    -- What was collected stays collected.
    pub refs_keep :
        (s : Source F) (out : List String) (k : String)
        → includes out k ≡ true
        → includes (refs_of s out) k ≡ true
    refs_keep (ref name path) out k h = add-keeps name out k h
    refs_keep (list parts) out k h = list_keep parts out k h
    refs_keep (object sources) out k h = named_keep sources out k h
    refs_keep (value v) out k h = h
    refs_keep (concat parts) out k h = parts_keep parts out k h

    pub list_keep :
        (s : Sources F) (out : List String) (k : String)
        → includes out k ≡ true
        → includes (refs_of_list s out) k ≡ true
    list_keep done out k h = h
    list_keep (then_source s rest) out k h = list_keep rest (refs_of s out) k (refs_keep s out k h)

    pub named_keep :
        (s : Named F) (out : List String) (k : String)
        → includes out k ≡ true
        → includes (refs_of_named s out) k ≡ true
    named_keep nothing_more out k h = h
    named_keep (named key s rest) out k h = named_keep rest (refs_of s out) k (refs_keep s out k h)

    pub parts_keep :
        (s : Parts F) (out : List String) (k : String)
        → includes out k ≡ true
        → includes (refs_of_parts s out) k ≡ true
    parts_keep no_more out k h = h
    parts_keep (literal text rest) out k h = parts_keep rest out k h
    parts_keep (interpolated s rest) out k h =
        parts_keep rest (refs_of s out) k (refs_keep s out k h)

  -- Two readers that read the same at every root among `names`, and spell and read texts alike.
  abbrev pub AreAlike : Reader F → Reader F → List String → Type 0
  AreAlike r r' names =
      (r.text_read ≡ r'.text_read)
      × (r.spell ≡ r'.spell)
      × ((name : String) (path : List String)
          → includes names name ≡ true
          → r.at_path name path ≡ r'.at_path name path)

  AreAlike-fewer :
      (r r' : Reader F) (names fewer : List String)
      → ((k : String) → includes fewer k ≡ true → includes names k ≡ true)
      → AreAlike r r' names
      → AreAlike r r' fewer
  AreAlike-fewer r r' names fewer sub (t, s, same) =
      (t, s, λ name path i. same name path (sub name i))

  mutual
    unfolding read_source refs_of

    source_alike :
        (s : Source F) (out : List String) (r r' : Reader F)
        → AreAlike r r' (refs_of s out)
        → read_source s r ≡ read_source s r'
    source_alike (ref name path) out r r' h = h.2 name path (add-includes name out)
    source_alike (list parts) out r r' h = ap (λ vs. some (arr vs)) (list_alike parts out r r' h)
    source_alike (object sources) out r r' h = ap (λ m. some (obj m)) (all_alike sources out r r' h)
    source_alike (value v) out r r' h = refl
    source_alike (concat parts) out r r' h =
        ap₂ (λ read text. some (read_text read text)) h.0 (joined_alike parts out r r' h)

    list_alike :
        (s : Sources F) (out : List String) (r r' : Reader F)
        → AreAlike r r' (refs_of_list s out)
        → read_list s r ≡ read_list s r'
    list_alike done out r r' h = refl
    list_alike (then_source s rest) out r r' h =
        ap₂ keep_item
          (source_alike s out r r'
            (AreAlike-fewer r r' _ (refs_of s out) (list_keep rest (refs_of s out)) h))
          (list_alike rest (refs_of s out) r r' h)

    all_alike :
        (s : Named F) (out : List String) (r r' : Reader F)
        → AreAlike r r' (refs_of_named s out)
        → read_all s r ≡ read_all s r'
    all_alike nothing_more out r r' h = refl
    all_alike (named key s rest) out r r' h =
        ap₂ (keep_member key)
          (source_alike s out r r'
            (AreAlike-fewer r r' _ (refs_of s out) (named_keep rest (refs_of s out)) h))
          (all_alike rest (refs_of s out) r r' h)

    joined_alike :
        (s : Parts F) (out : List String) (r r' : Reader F)
        → AreAlike r r' (refs_of_parts s out)
        → joined s r ≡ joined s r'
    joined_alike no_more out r r' h = refl
    joined_alike (literal text rest) out r r' h = ap (Text.◌++◌ text) (joined_alike rest out r r' h)
    joined_alike (interpolated s rest) out r r' h =
        ap₂ Text.◌++◌
          (ap₂ spelled h.1 (
            source_alike s out r r'
              (AreAlike-fewer r r' _ (refs_of s out) (parts_keep rest (refs_of s out)) h)))
          (joined_alike rest (refs_of s out) r r' h)

  -- Two readers that read the same at every root that a source reads, and spell values and read
  -- texts alike, yield the same for the source.
  pub read_source-alike :
      (s : Source F) (r r' : Reader F)
      → AreAlike r r' (refs_of s [])
      → read_source s r ≡ read_source s r'
  read_source-alike s r r' h = source_alike s [] r r' h

  pub read_all-alike :
      (s : Named F) (r r' : Reader F)
      → AreAlike r r' (refs_of_named s [])
      → read_all s r ≡ read_all s r'
  read_all-alike s r r' h = all_alike s [] r r' h
