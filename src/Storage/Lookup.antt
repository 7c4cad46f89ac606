-- ===== src/Storage/Lookup.antt =====
-- The rows of the maps of packages/plugin-storage-memory/src/engine.ts after one write.
use mathlib.Core.Path.{subst}
use mathlib.Core.Option.{some-injective}
use wilanis_js.Common.{◌≡◌, refl, sym, ap, ◌∙◌, String, Bool, true, false, ◌==◌, Option, some}
use wilanis_js.Common.{if◌then◌else◌, if-true, if-false, eq_iff, Bool-cases, inl, inr, ◌⊎◌}
use wilanis_js.Common.Dict.{get, set, delete, get-set, get-delete}
use wilanis_js.Storage.{Spelling, Row, Rows, Store, rows_at, made}
use wilanis_js.Storage.Write.{keep}

module _ {F : Type 0} where
  abbrev pub lookup : String → String → Store F → Option (Row F)
  lookup where_ key store = get key (rows_at where_ store)

  get-if :
      (b : Bool) (key : String) (rows : Rows F) (o : Option (Rows F))
      → get key (made (if b then some rows else o)) ≡ (if b then get key rows else get key (made o))
  get-if true key rows o = refl
  get-if false key rows o = refl

  pub lookup-set :
      (home where_ key : String) (rows : Rows F) (store : Store F)
      → lookup where_ key (set home rows store)
        ≡ (if home == where_ then get key rows else lookup where_ key store)
  unfolding rows_at
  lookup-set home where_ key rows store =
      ap (λ o. get key (made o)) (get-set home where_ rows store)
      ∙ get-if (home == where_) key rows (get where_ store)

module _ {F : Type 0} ⦃js : Spelling F⦄ where
  -- A row after one was kept is that one, or it was there before.
  pub lookup-keep :
      (home key : String) (r : Row F) (store : Store F) (where_ k : String) (found : Row F)
      → lookup where_ k (keep home key r store) ≡ some found
      → ((home ≡ where_) × (key ≡ k) × (r ≡ found)) ⊎ (lookup where_ k store ≡ some found)
  unfolding keep
  lookup-keep home key r store where_ k found h =
      let after = sym (lookup-set home where_ k (set key r (rows_at home store)) store) ∙ h in
      elim (Bool-cases (home == where_)) [
        | inr e ↦ inr (rw e at after)
        | inl e ↦
            let here : home ≡ where_ = (eq_iff home where_).0 e in
            let inside = sym (get-set key k r (rows_at home store)) ∙ rw e at after in
            elim (Bool-cases (key == k)) [
              | inl e' ↦ inl (here, (eq_iff key k).0 e', some-injective r found (rw e' at inside))
              | inr e' ↦ inr (subst (λ w. lookup w k store ≡ some found) here (rw e' at inside))
            ]
      ]

  -- A row that was there before one was kept is there, or that one is in its place.
  pub keep-lookup :
      (home key : String) (r : Row F) (store : Store F) (where_ k : String) (found : Row F)
      → lookup where_ k store ≡ some found
      → ((home ≡ where_) × (key ≡ k) × (lookup where_ k (keep home key r store) ≡ some r))
        ⊎ (lookup where_ k (keep home key r store) ≡ some found)
  unfolding keep
  keep-lookup home key r store where_ k found h =
      let after = lookup-set home where_ k (set key r (rows_at home store)) store in
      elim (Bool-cases (home == where_)) [
        | inr e ↦ inr (after ∙ if-false _ _ e ∙ h)
        | inl e ↦
            let here : home ≡ where_ = (eq_iff home where_).0 e in
            let inside = after ∙ if-true _ _ e ∙ get-set key k r (rows_at home store) in
            elim (Bool-cases (key == k)) [
              | inl e' ↦ inl (here, (eq_iff key k).0 e', inside ∙ if-true _ _ e')
              | inr e' ↦ inr (
                  inside
                  ∙ if-false _ _ e'
                  ∙ subst (λ w. lookup w k store ≡ some found) (sym here) h)
            ]
      ]

module _ {F : Type 0} where
  abbrev pub drop_row : String → String → Store F → Store F
  drop_row home key store = set home (delete key (rows_at home store)) store

  -- A row after one was deleted was there before.
  pub lookup-drop_row :
      (home key : String) (store : Store F) (where_ k : String) (found : Row F)
      → lookup where_ k (drop_row home key store) ≡ some found
      → lookup where_ k store ≡ some found
  lookup-drop_row home key store where_ k found h =
      let after = sym (lookup-set home where_ k (delete key (rows_at home store)) store) ∙ h in
      elim (Bool-cases (home == where_)) [
        | inr e ↦ rw e at after
        | inl e ↦
            let here : home ≡ where_ = (eq_iff home where_).0 e in
            let inside = sym (get-delete key k (rows_at home store)) ∙ rw e at after in
            elim (Bool-cases (key == k)) [
              | inl e' ↦ let nothing = rw e' at inside in cc
              | inr e' ↦ subst (λ w. lookup w k store ≡ some found) here (rw e' at inside)
            ]
      ]

  -- A row that was there before one was deleted is there, or it is that one.
  pub drop_row-lookup :
      (home key : String) (store : Store F) (where_ k : String) (found : Row F)
      → lookup where_ k store ≡ some found
      → ((home ≡ where_) × (key ≡ k)) ⊎ (lookup where_ k (drop_row home key store) ≡ some found)
  drop_row-lookup home key store where_ k found h =
      let after = lookup-set home where_ k (delete key (rows_at home store)) store in
      elim (Bool-cases (home == where_)) [
        | inr e ↦ inr (after ∙ if-false _ _ e ∙ h)
        | inl e ↦
            let here : home ≡ where_ = (eq_iff home where_).0 e in
            let inside = after ∙ if-true _ _ e ∙ get-delete key k (rows_at home store) in
            elim (Bool-cases (key == k)) [
              | inl e' ↦ inl (here, (eq_iff key k).0 e')
              | inr e' ↦ inr (
                  inside
                  ∙ if-false _ _ e'
                  ∙ subst (λ w. lookup w k store ≡ some found) (sym here) h)
            ]
      ]
