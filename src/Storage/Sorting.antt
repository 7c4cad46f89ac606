-- ===== src/Storage/Sorting.antt =====
-- What `Array.prototype.sort` does with records, as packages/plugin-storage-memory/src/match.ts calls it.
use mathlib.Core.List.{Permᴰ}
use mathlib.Core.Path.{subst}
use wilanis_js.Common.{◌≡◌, refl, sym, ap, ◌∙◌, suc, false, List, [], ◌∷◌, length, All, IsAmong}
use wilanis_js.Storage.{Record}
use wilanis_js.Storage.Match.{Sign, is_more, opposite}

module _ {F : Type 0} where
  -- A comparison that is consistent on some records: it turns round with its arguments, and is transitive.
  abbrev pub IsConsistent : (Record F → Record F → Sign) → List (Record F) → Type 0
  IsConsistent compare rs =
      ((a b : Record F) → IsAmong a rs → IsAmong b rs → compare b a ≡ opposite (compare a b))
      × ((a b c : Record F)
          → IsAmong a rs
          → IsAmong b rs
          → IsAmong c rs
          → is_more (compare a b) ≡ false
          → is_more (compare b c) ≡ false
          → is_more (compare a c) ≡ false)

  -- Each element and the one after it are as `P` says.
  abbrev pub Follows : (Record F → Record F → Type 0) → Record F → List (Record F) → Type 0
  Follows P r [] = Unit
  Follows P r (next ∷ rest) = P r next

  abbrev pub AreInTurn : (Record F → Record F → Type 0) → List (Record F) → Type 0
  AreInTurn P [] = Unit
  AreInTurn P (r ∷ rest) = Follows P r rest × AreInTurn P rest

-- The language's sort: some rearrangement whatever the comparison, and where that is consistent, no record is more
-- than the one after it.
pub record Sorting (F : Type 0) : Type 0 where
  pub sort : (Record F → Record F → Sign) → List (Record F) → List (Record F)
  pub sort_rearranges :
      (compare : Record F → Record F → Sign) (rs : List (Record F)) → Permᴰ (sort compare rs) rs
  pub sort_orders :
      (compare : Record F → Record F → Sign) (rs : List (Record F))
      → IsConsistent compare rs
      → AreInTurn (λ r next. is_more (compare r next) ≡ false) (sort compare rs)

pub Permᴰ-length : {A : Type 0} {xs ys : List A} → Permᴰ xs ys → length xs ≡ length ys
Permᴰ-length Permᴰ.nil = refl
Permᴰ-length (Permᴰ.cons e p) = ap suc (Permᴰ-length p)
Permᴰ-length (Permᴰ.swap e f) = refl
Permᴰ-length (Permᴰ.trans p q) = Permᴰ-length p ∙ Permᴰ-length q

-- What holds of each element holds of each of the rearranged.
pub All-Permᴰ : {A : Type 0} (P : A → Type 0) {xs ys : List A} → Permᴰ xs ys → All P ys → All P xs
All-Permᴰ P Permᴰ.nil h = tt
All-Permᴰ P (Permᴰ.cons e p) h = (subst P (sym e) h.0, All-Permᴰ P p h.1)
All-Permᴰ P (Permᴰ.swap e f) h = (subst P (sym e) h.1.0, (subst P (sym f) h.0, h.1.1))
All-Permᴰ P (Permᴰ.trans p q) h = All-Permᴰ P p (All-Permᴰ P q h)
