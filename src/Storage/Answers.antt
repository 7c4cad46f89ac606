-- ===== src/Storage/Answers.antt =====
-- packages/plugin-storage-memory/src/engine.ts: what a find answers is asked for.
use wilanis_js.Common.{ℕ, ◌≡◌, refl, true, Option, none, some, List, [], ◌∷◌}
use wilanis_js.Common.{drop, All, All-take, All-drop, IsAmong, Bool-cases, inl, inr}
use wilanis_js.Common.Dict.{values}
use wilanis_js.Types.{Floats}
use wilanis_js.Expr.{Coercions}
use wilanis_js.Storage.{Spelling, Record, Scope, Row, Store, At, home, rows_at}
use wilanis_js.Storage.Rows.{rows_in, within}
use wilanis_js.Storage.Match.{Where, Order, Collation, compare_records, matches}
use wilanis_js.Storage.Sorting.{Sorting, All-Permᴰ}
use wilanis_js.Storage.Find.{Query, paged, matching, ordered, find}

module _ {ℓ} {F : Type 0} (P : Record F → Type ℓ) where
  All-paged :
      (limit offset : Option ℕ) (rs : List (Record F)) → All P rs → All P (paged rs limit offset)
  unfolding paged
  All-paged none none rs h = h
  All-paged none (some offset) rs h = All-drop P offset rs h
  All-paged (some limit) none rs h = All-take P limit rs h
  All-paged (some limit) (some offset) rs h =
      All-take P limit (drop offset rs) (All-drop P offset rs h)

module _ {F : Type 0} ⦃fl : Floats F⦄ ⦃js : Coercions F⦄ ⦃sp : Spelling F⦄ ⦃co : Collation F⦄
    ⦃so : Sorting F⦄ where
  -- A record that a query asks for: of a row of the collection, within the scope, and matched.
  abbrev pub IsAskedFor : At → Query F → Store F → Record F → Type 0
  IsAskedFor at query store r =
      (row : Row F) × IsAmong row (values (rows_at (home at) store))
      × (within row query.scope ≡ true)
      × (matches query.where_ r ≡ true)
      × (row.record_ ≡ r)

  All-ordered :
      (P : Record F → Type 0) (rs : List (Record F)) (order : List Order)
      → All P rs
      → All P (ordered rs order)
  unfolding ordered
  All-ordered P rs [] h = h
  All-ordered P rs (one ∷ rest) h =
      All-Permᴰ P (so.sort_rearranges (compare_records (one ∷ rest)) rs) h

  All-matching :
      (P : Record F → Type 0) (where_ : Option (Where F)) (scope : Option (Scope F))
      (rows : List (Row F))
      → ((row : Row F)
          → IsAmong row rows
          → within row scope ≡ true
          → matches where_ row.record_ ≡ true
          → P row.record_)
      → All P (matching where_ (rows_in rows scope))
  unfolding matching rows_in
  All-matching P where_ scope [] f = tt
  All-matching P where_ scope (row ∷ rest) f =
      let later = All-matching P where_ scope rest (λ r among. f r (inr among)) in
      elim (Bool-cases (within row scope)) [
        | inr e ↦ rw (rows_in, e) later
        | inl e ↦ elim (Bool-cases (matches where_ row.record_)) [
          | inr e' ↦ rw (rows_in, e, matching, e') later
          | inl e' ↦ rw (rows_in, e, matching, e') (f row (inl refl) e e', later)
        ]
      ]

  -- Every record that find answers is of a row of the collection, within the query's scope, that the
  -- query's filter matches.
  pub find-AreAskedFor :
      (at : At) (query : Query F) (store : Store F)
      → All (IsAskedFor at query store) (find at query store)
  unfolding find
  find-AreAskedFor at query store =
      let rows = values (rows_at (home at) store) in
      let found = matching query.where_ (rows_in rows query.scope) in
      All-paged (IsAskedFor at query store) query.limit query.offset (ordered found query.order) (
        All-ordered (IsAskedFor at query store) found query.order (
          All-matching (IsAskedFor at query store) query.where_ query.scope rows
            (λ row among inside matched. (row, among, inside, matched, refl))))
