-- ===== src/Kernel/Redact/Hidden.antt =====
-- packages/engine/src/redact.ts: what a read shows of a value that is marked.
use mathlib.Core.Path.{subst}
use wilanis_js.Common.{String, Bool, true, false, List, [], ◌∷◌, ◌++◌, ◌==◌, ◌≡◌, refl, sym}
use wilanis_js.Common.{
  All, Bool-cases, Option-cases, inl, inr, Option, none, some, if◌then◌else◌, ◌⊎◌,
}
use mathlib.Core.List.{Memᴰ}
use mathlib.Core.Option.{some-injective}
use wilanis_js.Types.{Floats}
use wilanis_js.Types.{Value, null, bool, num, str, arr, obj, Members, end, member, member?}
use wilanis_js.Expr.{Coercions, read_segment, read_segments}
use wilanis_js.Kernel.Redact.{secret, meets_secret, shown_read, redact_value}
use wilanis_js.Kernel.Redact.Marked.{IsMarked, AtField, AtEach}
use wilanis_js.Kernel.Redact.Shown.{redact_value-AreMarked}

-- Nothing, or the marker.
abbrev pub IsHidden : {F : Type 0} → Option (Value F) → Type 0
IsHidden o = (o ≡ none) ⊎ (o ≡ some secret)

of_listed :
    (P : List String → Type 0) (path : List String) (paths : List (List String))
    → Memᴰ path paths
    → All P paths
    → P path
of_listed P path [] m h = elim m [ ]
of_listed P path (other ∷ paths) (Memᴰ.head e) (h, more) = subst P (sym e) h
of_listed P path (other ∷ paths) (Memᴰ.tail m) (h, more) = of_listed P path paths m more

module _ {F : Type 0} where
  -- The path meets no list in the value, of which a read takes the elements by their indexes.
  unfoldable pub MeetsNoList : List String → Value F → Type 0
  unfolding AtField
  MeetsNoList [] v = Unit
  MeetsNoList (name ∷ rest) (obj m) = AtField name (MeetsNoList rest) m
  MeetsNoList (name ∷ rest) (arr vs) = ⊥
  MeetsNoList (name ∷ rest) v = Unit

  pub at_field :
      (name : String) (P : Value F → Type 0) (m : Members F) (v : Value F)
      → AtField name P m
      → member? name m ≡ some v
      → P v
  unfolding AtField
  at_field name P end v at e = cc
  at_field name P (member key w m) v at e = elim (Bool-cases (key == name)) [
    | inl same ↦ subst P (some-injective w v (rw same at e)) (rw same at at)
    | inr other ↦ at_field name P m v (rw other at at) (rw other at e)
  ]

module _ {F : Type 0} ⦃fl : Floats F⦄ ⦃js : Coercions F⦄ where
  nothing_there : (path : List String) → read_segments {F = F} none path ≡ none
  unfolding read_segments read_segment
  nothing_there [] = refl
  nothing_there (segment ∷ path) = nothing_there path

  -- What a read along the path and further comes to: it meets the marker, or ends with it or with nothing.
  abbrev IsCovered : Option (Value F) → List String → Type 0
  IsCovered o path = (meets_secret o path ≡ true) ⊎ IsHidden (read_segments o path)

  nothing-IsCovered : (path : List String) → IsCovered none path
  nothing-IsCovered path = inr (inl (nothing_there path))

  secret-IsCovered : (more : List String) → IsCovered (some secret) more
  unfolding meets_secret read_segments
  secret-IsCovered [] = inr (inr refl)
  secret-IsCovered (segment ∷ more) = inl refl

  field-IsCovered :
      (name : String) (path : List String) (m : Members F)
      → IsCovered (member? name m) path
      → IsCovered (some (obj m)) (name ∷ path)
  unfolding meets_secret read_segments read_segment
  field-IsCovered name path m h = h

  marked-IsCovered :
      (path more : List String) (w : Value F)
      → IsMarked path w
      → MeetsNoList path w
      → IsCovered (some w) (path ++ more)
  unfolding IsMarked AtEach MeetsNoList read_segments read_segment meets_secret
  marked-IsCovered [] more w e none_met =
      subst (λ v. IsCovered (some v) more) (sym e) (secret-IsCovered more)
  marked-IsCovered (name ∷ path) more (obj m) at none_met = elim (Option-cases (member? name m)) [
    | inl e ↦
        field-IsCovered name (path ++ more) m
          (subst (λ o. IsCovered o (path ++ more)) (sym e) (nothing-IsCovered (path ++ more)))
    | inr (v, e) ↦ field-IsCovered name (path ++ more) m (
        subst (λ o. IsCovered o (path ++ more)) (sym e)
          (marked-IsCovered path more v (at_field name (IsMarked path) m v at e)
            (at_field name (MeetsNoList path) m v none_met e)))
  ]
  marked-IsCovered (name ∷ path) more (arr vs) at none_met = absurd none_met
  marked-IsCovered (name ∷ path) more null at none_met = inr (inl (nothing_there (path ++ more)))
  marked-IsCovered (name ∷ path) more (bool b) at none_met =
      inr (inl (nothing_there (path ++ more)))
  marked-IsCovered (name ∷ path) more (num n) at none_met = inr (inl (nothing_there (path ++ more)))
  marked-IsCovered (name ∷ path) more (str s) at none_met = inr (inl (nothing_there (path ++ more)))

  choice-IsHidden :
      (o : Option (Value F)) (met : Bool) (r : Option (Value F))
      → (met ≡ true) ⊎ IsHidden r
      → IsHidden (elim o [ none ↦ none | some v ↦ if met then some secret else r ])
  choice-IsHidden none met r h = inl refl
  choice-IsHidden (some v) true r h = inr refl
  choice-IsHidden (some v) false r (inl e) = absurd cc
  choice-IsHidden (some v) false r (inr hidden) = hidden

  covered-IsHidden :
      (value : Option (Value F)) (w : Value F) (path : List String)
      → IsCovered (some w) path
      → IsHidden (shown_read value (some w) path)
  unfolding shown_read
  covered-IsHidden value w path h =
      choice-IsHidden (read_segments value path) (meets_secret (some w) path)
        (read_segments (some w) path) h

  -- Of a value that is shown by paths, a read along one of them, or further, shows the marker or nothing, whatever
  -- the value: where no list is met on the way, of which the paths walk every element and a read takes one.
  pub shown_read-IsHidden :
      (value : Option (Value F)) (v : Value F) (path more : List String)
      (paths : List (List String))
      → Memᴰ path paths
      → MeetsNoList path (redact_value v paths)
      → IsHidden (shown_read value (some (redact_value v paths)) (path ++ more))
  shown_read-IsHidden value v path more paths m none_met =
      covered-IsHidden value (redact_value v paths) (path ++ more) (
        marked-IsCovered path more (redact_value v paths)
          (of_listed (λ p. IsMarked p (redact_value v paths)) path paths m
            (redact_value-AreMarked v paths))
          none_met)
