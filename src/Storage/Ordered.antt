-- ===== src/Storage/Ordered.antt =====
-- packages/plugin-storage-memory/src/engine.ts and match.ts: a find answers its page of the records in the order
-- asked for.
use mathlib.Core.List.{Permᴰ}
use mathlib.Core.List.Permᴰ
use wilanis_js.Common.{ℕ, ◌≡◌, refl, ap, ◌∙◌, Bool, true, false, Option, none, some, ◌⊎◌, inl, inr}
use wilanis_js.Common.{List, [], ◌∷◌, if◌then◌else◌, take, drop}
use wilanis_js.Common.Dict as Dict
use wilanis_js.Common.Dict.{values}
use wilanis_js.Types.{Value, bool, num, Floats}
use wilanis_js.Expr.{Coercions}
use wilanis_js.Storage.{Spelling, Record, Store, At, home, rows_at}
use wilanis_js.Storage.Rows.{rows_in}
use wilanis_js.Storage.Match.{
  Order, Sign, less, equal, more, is_more, opposite, Collation, bool_difference,
}
use wilanis_js.Storage.Match.{compare, compare_records, text_or_empty, untied, directed}
use wilanis_js.Storage.Sorting.{Sorting, AreInTurn}
use wilanis_js.Storage.Sorted.{AreOfOneKind, compare-turned, compare_records-IsConsistent}
use wilanis_js.Storage.Find.{Query, paged, matching, ordered, find}

-- The records that a query asks for, in no order and whole.
abbrev pub unordered : {F : Type 0} → Query F → Query F
unordered query = record query { order = []; limit = none; offset = none }

-- So many records, after so many others.
abbrev pub page : {A : Type 0} → Option ℕ → Option ℕ → List A → List A
page none none rs = rs
page none (some offset) rs = drop offset rs
page (some limit) none rs = take limit rs
page (some limit) (some offset) rs = take limit (drop offset rs)

bool_less : (b c : Bool) → bool_difference b c ≡ less → (b ≡ false) × (c ≡ true)
unfolding bool_difference
bool_less true true h = cc
bool_less true false h = cc
bool_less false true h = (refl, refl)
bool_less false false h = cc

bool_equal : (b c : Bool) → bool_difference b c ≡ equal → b ≡ c
unfolding bool_difference
bool_equal true true h = refl
bool_equal true false h = cc
bool_equal false true h = cc
bool_equal false false h = refl

module _ {F : Type 0} ⦃fl : Floats F⦄ ⦃js : Coercions F⦄ ⦃sp : Spelling F⦄ ⦃co : Collation F⦄ where
  -- One value is before another: a lesser number, false before true, or a text that the collation has before.
  abbrev pub IsBefore : Option (Value F) → Option (Value F) → Type 0
  IsBefore (some (num n)) (some (num m)) = co.difference n m ≡ less
  IsBefore (some (bool b)) (some (bool c)) = (b ≡ false) × (c ≡ true)
  IsBefore left right = co.locale_compare (text_or_empty left) (text_or_empty right) ≡ less

  abbrev pub Ties : Option (Value F) → Option (Value F) → Type 0
  Ties (some (num n)) (some (num m)) = co.difference n m ≡ equal
  Ties (some (bool b)) (some (bool c)) = b ≡ c
  Ties left right = co.locale_compare (text_or_empty left) (text_or_empty right) ≡ equal

  -- A record may stand before another: by the first field that is ordered by, the greater first where the order is
  -- descending; by the others where those tie.
  abbrev pub MayPrecede : List Order → Record F → Record F → Type 0
  MayPrecede [] left right = Unit
  MayPrecede (one ∷ rest) left right =
      (if one.descending
        then IsBefore (Dict.get one.by right) (Dict.get one.by left)
        else IsBefore (Dict.get one.by left) (Dict.get one.by right))
      ⊎ (Ties (Dict.get one.by left) (Dict.get one.by right) × MayPrecede rest left right)

  compare-IsBefore :
      (left right : Option (Value F)) → compare left right ≡ less → IsBefore left right
  unfolding compare
  compare-IsBefore (some (num n)) (some (num m)) h = h
  compare-IsBefore (some (bool b)) (some (bool c)) h = bool_less b c h
  compare-IsBefore left right h = h

  compare-Ties : (left right : Option (Value F)) → compare left right ≡ equal → Ties left right
  unfolding compare
  compare-Ties (some (num n)) (some (num m)) h = h
  compare-Ties (some (bool b)) (some (bool c)) h = bool_equal b c h
  compare-Ties left right h = h

  -- One ordering's part of what the comparison answers.
  first_or_next :
      (descending : Bool) (left right : Option (Value F)) (next : Sign)
      → is_more (untied (directed descending (compare left right)) next) ≡ false
      → (if descending then IsBefore right left else IsBefore left right)
        ⊎ (Ties left right × (is_more next ≡ false))
  unfolding untied directed is_more opposite
  first_or_next descending left right next h = signs descending (compare left right) refl h
    where
      signs :
          (d : Bool) (s : Sign)
          → compare left right ≡ s
          → is_more (untied (directed d s) next) ≡ false
          → (if d then IsBefore right left else IsBefore left right)
            ⊎ (Ties left right × (is_more next ≡ false))
      signs false less e h = inl (compare-IsBefore left right e)
      signs false equal e h = inr (compare-Ties left right e, h)
      signs false more e h = cc
      signs true less e h = cc
      signs true equal e h = inr (compare-Ties left right e, h)
      signs true more e h =
          inl (compare-IsBefore right left (compare-turned left right ∙ ap opposite e))

  compare_records-MayPrecede :
      (order : List Order) (left right : Record F)
      → is_more (compare_records order left right) ≡ false
      → MayPrecede order left right
  unfolding compare_records
  compare_records-MayPrecede [] left right h = tt
  compare_records-MayPrecede (one ∷ rest) left right h =
      elim (first_or_next one.descending (Dict.get one.by left) (Dict.get one.by right)
        (compare_records rest left right) h) [
          | inl before ↦ inl before
          | inr (ties, later) ↦ inr (ties, compare_records-MayPrecede rest left right later)
        ]

  AreInTurn-map :
      (P Q : Record F → Record F → Type 0) (rs : List (Record F))
      → ((r next : Record F) → P r next → Q r next)
      → AreInTurn P rs
      → AreInTurn Q rs
  AreInTurn-map P Q [] f h = tt
  AreInTurn-map P Q (r ∷ []) f h = (tt, tt)
  AreInTurn-map P Q (r ∷ next ∷ rest) f (here, later) =
      (f r next here, AreInTurn-map P Q (next ∷ rest) f later)

  anyhow : (rs : List (Record F)) → AreInTurn (MayPrecede []) rs
  anyhow [] = tt
  anyhow (r ∷ []) = (tt, tt)
  anyhow (r ∷ next ∷ rest) = (tt, anyhow (next ∷ rest))

  module _ ⦃so : Sorting F⦄ where
    ordered-AreInTurn :
        (rs : List (Record F)) (order : List Order)
        → AreOfOneKind order rs
        → AreInTurn (MayPrecede order) (ordered rs order)
    unfolding ordered
    ordered-AreInTurn rs [] kinds = anyhow rs
    ordered-AreInTurn rs (one ∷ rest) kinds =
        AreInTurn-map (λ r next. is_more (compare_records (one ∷ rest) r next) ≡ false)
          (MayPrecede (one ∷ rest)) (so.sort (compare_records (one ∷ rest)) rs)
          (compare_records-MayPrecede (one ∷ rest))
          (so.sort_orders (compare_records (one ∷ rest)) rs
            (compare_records-IsConsistent (one ∷ rest) rs kinds))

    ordered-Permᴰ : (rs : List (Record F)) (order : List Order) → Permᴰ (ordered rs order) rs
    unfolding ordered
    ordered-Permᴰ rs [] = Permᴰ.refl rs
    ordered-Permᴰ rs (one ∷ rest) = so.sort_rearranges (compare_records (one ∷ rest)) rs

    paged-page :
        (rs : List (Record F)) (limit offset : Option ℕ)
        → paged rs limit offset ≡ page limit offset rs
    unfolding paged
    paged-page rs none none = refl
    paged-page rs none (some offset) = refl
    paged-page rs (some limit) none = refl
    paged-page rs (some limit) (some offset) = refl

    -- What a find answers is its page, by its limit and offset, of a rearrangement of the records that it asks for
    -- in which each may stand before the next: by the first field that is ordered by, the greater first where that is
    -- descending, by the next field where those tie, and so on. The records asked for hold values of one kind, all
    -- numbers, all booleans or neither, under each field that is ordered by.
    pub find-IsInOrder :
        (at : At) (query : Query F) (store : Store F)
        → AreOfOneKind query.order (find at (unordered query) store)
        → (whole : List (Record F)) × Permᴰ whole (find at (unordered query) store)
          × AreInTurn (MayPrecede query.order) whole
          × (find at query store ≡ page query.limit query.offset whole)
    unfolding find ordered paged
    find-IsInOrder at query store kinds =
        let found =
          matching query.where_ (rows_in (values (rows_at (home at) store)) query.scope) in
        (
          ordered found query.order,
          ordered-Permᴰ found query.order,
          ordered-AreInTurn found query.order kinds,
          paged-page (ordered found query.order) query.limit query.offset,
        )
