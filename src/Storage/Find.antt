-- ===== src/Storage/Find.antt =====
-- packages/plugin-storage-memory/src/engine.ts: find and count, and what find answers.
use wilanis_js.Common.{ℕ, ◌≡◌, refl, Option, none, some}
use wilanis_js.Common.{List, [], ◌∷◌, if◌then◌else◌, take, drop, length}
use wilanis_js.Common.Dict.{values}
use wilanis_js.Types.{Floats}
use wilanis_js.Expr.{Coercions}
use wilanis_js.Storage.{Spelling, Record, Scope, Row, Store, At, home, rows_at}
use wilanis_js.Storage.Rows.{rows_in}
use wilanis_js.Storage.Match.{Where, Order, Collation}
use wilanis_js.Storage.Sorting.{Sorting, Permᴰ-length}
use wilanis_js.Storage.Match.{compare_records, matches}

pub record Query (F : Type 0) : Type 0 where
  pub where_ : Option (Where F)
  pub order : List Order
  pub limit : Option ℕ
  pub offset : Option ℕ
  pub scope : Option (Scope F)

module _ {F : Type 0} where
  unfoldable pub paged : List (Record F) → Option ℕ → Option ℕ → List (Record F)
  paged records none none = records
  paged records none (some offset) = drop offset records
  paged records (some limit) none = take limit records
  paged records (some limit) (some offset) = take limit (drop offset records)

module _ {F : Type 0} ⦃fl : Floats F⦄ ⦃js : Coercions F⦄ ⦃sp : Spelling F⦄ ⦃co : Collation F⦄
    ⦃so : Sorting F⦄ where
  -- The records of the rows that the filter matches.
  unfoldable pub matching : Option (Where F) → List (Row F) → List (Record F)
  unfolding matches
  matching where_ [] = []
  matching where_ (r ∷ rest) =
      let later = matching where_ rest in
      if matches where_ r.record_ then r.record_ ∷ later else later

  -- `ordered`; no ordering leaves the records as they are.
  unfoldable pub ordered : List (Record F) → List Order → List (Record F)
  unfolding compare_records
  ordered records [] = records
  ordered records (one ∷ rest) = so.sort (compare_records (one ∷ rest)) records

  unfoldable pub find : At → Query F → Store F → List (Record F)
  unfolding matching ordered paged rows_in rows_at
  find at query store =
      paged
        (ordered (matching query.where_ (rows_in (values (rows_at (home at) store)) query.scope))
          query.order)
        query.limit query.offset

  unfoldable pub count : At → Option (Where F) → Option (Scope F) → Store F → ℕ
  unfolding matching rows_in rows_at
  count at where_ scope store =
      length (matching where_ (rows_in (values (rows_at (home at) store)) scope))

  length-ordered :
      (rs : List (Record F)) (order : List Order) → length (ordered rs order) ≡ length rs
  unfolding ordered
  length-ordered rs [] = refl
  length-ordered rs (one ∷ rest) =
      Permᴰ-length (so.sort_rearranges (compare_records (one ∷ rest)) rs)

  -- A find without limit or offset answers as many records as count says there are.
  pub find-count :
      (at : At) (where_ : Option (Where F)) (order : List Order) (scope : Option (Scope F))
      (store : Store F)
      → length (
          find at
            (record { where_ = where_; order = order; limit = none; offset = none; scope = scope })
            store)
        ≡ count at where_ scope store
  unfolding find count paged
  find-count at where_ order scope store = length-ordered _ order
