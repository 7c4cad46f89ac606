-- ===== src/Storage/Insertion.antt =====
-- An insertion sort does what `Array.prototype.sort` promises of packages/plugin-storage-memory/src/match.ts.
use mathlib.Core.List.{Permᴰ}
use mathlib.Core.List.Permᴰ
use mathlib.Core.Path.{subst}
use wilanis_js.Common.{
  ◌≡◌, refl, sym, true, false, List, [], ◌∷◌, All, IsAmong, inl, inr, Bool-cases, if◌then◌else◌,
}
use wilanis_js.Storage.{Record}
use wilanis_js.Storage.Match.{Sign, less, equal, more, is_more, opposite}
use wilanis_js.Storage.Sorting.{Sorting, Follows, AreInTurn, All-Permᴰ}

more-opposite : (s : Sign) → is_more s ≡ true → is_more (opposite s) ≡ false
unfolding is_more opposite
more-opposite less h = cc
more-opposite equal h = cc
more-opposite more h = refl

module _ {F : Type 0} where
  -- What holds of each that is among some holds of them all.
  All-among :
      (P : Record F → Type 0) (rs : List (Record F))
      → ((r : Record F) → IsAmong r rs → P r)
      → All P rs
  All-among P [] h = tt
  All-among P (r ∷ rest) h = (h r (inl refl), All-among P rest (λ other i. h other (inr i)))

  unfoldable insert : (Record F → Record F → Sign) → Record F → List (Record F) → List (Record F)
  insert compare r [] = r ∷ []
  insert compare r (other ∷ rest) =
      let further = insert compare r rest in
      if is_more (compare r other) then other ∷ further else r ∷ other ∷ rest

  unfoldable pub sorted : (Record F → Record F → Sign) → List (Record F) → List (Record F)
  unfolding insert
  sorted compare [] = []
  sorted compare (r ∷ rest) = insert compare r (sorted compare rest)

  insert-Permᴰ :
      (compare : Record F → Record F → Sign) (r : Record F) (rs : List (Record F))
      → Permᴰ (insert compare r rs) (r ∷ rs)
  unfolding insert
  insert-Permᴰ compare r [] = Permᴰ.refl (r ∷ [])
  insert-Permᴰ compare r (other ∷ rest) = elim (Bool-cases (is_more (compare r other))) [
    | inl e ↦
        rw (insert, e)
          (Permᴰ.trans (Permᴰ.cons refl (insert-Permᴰ compare r rest)) (Permᴰ.swap refl refl))
    | inr e ↦ rw (insert, e) (Permᴰ.refl (r ∷ other ∷ rest))
  ]

  pub sorted-Permᴰ :
      (compare : Record F → Record F → Sign) (rs : List (Record F)) → Permᴰ (sorted compare rs) rs
  unfolding sorted
  sorted-Permᴰ compare [] = Permᴰ.nil
  sorted-Permᴰ compare (r ∷ rest) =
      Permᴰ.trans (insert-Permᴰ compare r (sorted compare rest))
        (Permᴰ.cons refl (sorted-Permᴰ compare rest))

  abbrev NotMore : (Record F → Record F → Sign) → Record F → Record F → Type 0
  NotMore compare r next = is_more (compare r next) ≡ false

  insert-Follows :
      (compare : Record F → Record F → Sign) (one r : Record F) (rest : List (Record F))
      → Follows (NotMore compare) one rest
      → NotMore compare one r
      → Follows (NotMore compare) one (insert compare r rest)
  unfolding insert
  insert-Follows compare one r [] f h = h
  insert-Follows compare one r (other ∷ rest) f h = elim (Bool-cases (is_more (compare r other))) [
    | inl e ↦ rw (insert, e) f
    | inr e ↦ rw (insert, e) h
  ]

  insert-AreInTurn :
      (compare : Record F → Record F → Sign) (r : Record F) (rs : List (Record F))
      → All (λ other. compare other r ≡ opposite (compare r other)) rs
      → AreInTurn (NotMore compare) rs
      → AreInTurn (NotMore compare) (insert compare r rs)
  unfolding insert
  insert-AreInTurn compare r [] turns h = (tt, tt)
  insert-AreInTurn compare r (other ∷ rest) turns h =
      elim (Bool-cases (is_more (compare r other))) [
        | inr e ↦ rw (insert, e) (e, h)
        | inl e ↦
            let turned : NotMore compare other r =
              subst (λ s. is_more s ≡ false) (sym turns.0) (more-opposite (compare r other) e) in
            rw (insert, e)
              (
                insert-Follows compare other r rest h.0 turned,
                insert-AreInTurn compare r rest turns.1 h.1,
              )
      ]

  pub sorted-AreInTurn :
      (compare : Record F → Record F → Sign) (rs : List (Record F))
      → ((a b : Record F) → IsAmong a rs → IsAmong b rs → compare b a ≡ opposite (compare a b))
      → AreInTurn (NotMore compare) (sorted compare rs)
  unfolding sorted
  sorted-AreInTurn compare [] turns = tt
  sorted-AreInTurn compare (r ∷ rest) turns =
      insert-AreInTurn compare r (sorted compare rest)
        (All-Permᴰ (λ other. compare other r ≡ opposite (compare r other))
          (sorted-Permᴰ compare rest)
          (All-among (λ other. compare other r ≡ opposite (compare r other)) rest
            (λ other i. turns r other (inl refl) (inr i))))
        (sorted-AreInTurn compare rest (λ a b i k. turns a b (inr i) (inr k)))

abbrev pub insertion : (F : Type 0) → Sorting F
insertion F = record {
  sort = sorted;
  sort_rearranges = sorted-Permᴰ;
  sort_orders = λ compare rs (turned, transitive). sorted-AreInTurn compare rs turned;
}
