-- ===== src/Common/Dict.antt =====
-- A JavaScript object or `Map` with text keys, as an association list in insertion order: a write
-- to a key that is there keeps its place, a write to another goes to the end.
use Prim.Native.String.{String}
use mathlib.Core.Path.{◌≡◌, refl, subst}
use mathlib.Core.Bool.{Bool, false}
use mathlib.Core.Logic.{inl, inr}
use mathlib.Core.Option.{Option, none, some, some-injective}
use mathlib.Core.List.{List, [], ◌∷◌}
use native.Mathlib.Omega.{arith}
use text.Mathlib.Text.{◌==◌}
use text.Mathlib.TextEquality.{eq_iff}
use wilanis_js.Common.Tests.{if◌then◌else◌, Bool-cases}
use wilanis_js.Common.Lists.{some_of}

abbrev pub Dict {ℓ} : Type ℓ → Type ℓ
Dict V = List (String × V)

module _ {ℓ} {V : Type ℓ} where
  unfoldable pub get : String → Dict V → Option V
  get k [] = none
  get k ((j, v) ∷ d) = if j == k then some v else get k d

  unfoldable pub set : String → V → Dict V → Dict V
  set k v [] = (k, v) ∷ []
  set k v ((j, w) ∷ d) = if j == k then (k, v) ∷ d else (j, w) ∷ set k v d

  unfoldable pub delete : String → Dict V → Dict V
  delete k [] = []
  delete k ((j, w) ∷ d) = let rest = delete k d in if j == k then rest else (j, w) ∷ rest

  unfoldable pub values : Dict V → List V
  values [] = []
  values ((_, v) ∷ d) = v ∷ values d

  pub get-set :
      (k j : String) (v : V) (d : Dict V) → get j (set k v d) ≡ (if k == j then some v else get j d)
  unfolding get set
  get-set k j v [] = refl
  get-set k j v ((i, w) ∷ d) = ground (arith, eq_iff k j, eq_iff i k, eq_iff i j, get-set k j v d)

  pub get-delete :
      (k j : String) (d : Dict V) → get j (delete k d) ≡ (if k == j then none else get j d)
  unfolding get delete
  get-delete k j [] = ground arith
  get-delete k j ((i, w) ∷ d) = ground (arith, eq_iff i k, eq_iff i j, eq_iff k j, get-delete k j d)

-- Keys that do not repeat, as a JavaScript object's.
abbrev pub IsDistinct {ℓ} : {V : Type ℓ} → Dict V → Type ℓ
IsDistinct [] = Unit
IsDistinct ((k, v) ∷ d) = (get k d ≡ none) × IsDistinct d

-- A value under a key is one of the values.
pub some_of-values {ℓ} :
    {V : Type ℓ} (test : V → Bool) (d : Dict V) (k : String) (v : V)
    → some_of test (values d) ≡ false
    → get k d ≡ some v
    → test v ≡ false
unfolding get values
some_of-values test [] k v h e = cc
some_of-values test ((j, w) ∷ d) k v h e = elim (Bool-cases (j == k)) [
  | inl same ↦ subst (λ x. test x ≡ false) (some-injective w v (rw same at e)) (ground arith)
  | inr other ↦ some_of-values test d k v (ground arith) (rw other at e)
]
