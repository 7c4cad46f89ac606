-- ===== src/Storage/Changes.antt =====
-- What one write of packages/plugin-storage-memory/src/engine.ts does to the maps: nothing, one row
-- kept that broke no constraint, or one row deleted that nothing refers to.
use mathlib.Core.Path.{subst}
use mathlib.Core.Option.{some-injective}
use wilanis_js.Common.{◌≡◌, refl, sym, ap, ◌∙◌, String, Bool, true, not, ◌||◌, ◌==◌}
use wilanis_js.Common.{Option, none, some, [], ◌∷◌, arith}
use wilanis_js.Common.{Bool-cases, Option-cases, inl, inr, if-false}
use wilanis_js.Common.Dict.{Dict, set, delete, get-set}
use wilanis_js.Common.Dict as Dict
use wilanis_js.Types.{Value}
use wilanis_js.Storage.{Spelling, Record, Scope, Row, Store, At, home, rows_at}
use wilanis_js.Storage.Rows.{within, text_of, row}
use wilanis_js.Storage.Write.{
  violated, keep, put, put_judged, merge, patch, patch_row, held, remove,
}

pub data Op (F : Type 0) : Type 0 where
  put_op : Record F → Bool → Op F
  patch_op : Value F → Record F → Op F
  remove_op : Value F → Op F

module _ {F : Type 0} ⦃js : Spelling F⦄ where
  -- One write on a collection under a scope, for what it leaves.
  unfoldable pub step : At → Op F → Option (Scope F) → Store F → Store F
  unfolding put patch remove
  step at (put_op r replace) scope store = (put at r replace scope store).0
  step at (patch_op key changes) scope store = (patch at key changes scope store).0
  step at (remove_op key) scope store = (remove at key scope store).0

  -- What is under a key is none of another scope's.
  abbrev pub IsOurs : At → Option (Scope F) → String → Store F → Type 0
  IsOurs at scope key store =
      (old : Row F) → Dict.get key (rows_at (home at) store) ≡ some old → within old scope ≡ true

  -- Every row is under the text of its own key.
  abbrev pub IsKeyed : At → Store F → Type 0
  IsKeyed at store =
      (key : String) (r : Row F)
      → Dict.get key (rows_at (home at) store) ≡ some r
      → text_of (Dict.get at.key r.record_) ≡ key

  pub data Change (at : At) (scope : Option (Scope F)) (before after : Store F) : Type 0 where
    same : after ≡ before → Change at scope before after
    kept :
        (key : String) (r : Row F)
        → after ≡ keep (home at) key r before
        → text_of (Dict.get at.key r.record_) ≡ key
        → violated at r.record_ r.scope before ≡ none
        → IsOurs at scope key before
        → Change at scope before after
    dropped :
        (key : String)
        → after ≡ set (home at) (delete key (rows_at (home at) before)) before
        → held at key before ≡ none
        → IsOurs at scope key before
        → Change at scope before after

  row-found :
      (where_ key : String) (scope : Option (Scope F)) (store : Store F) (r : Row F)
      → row where_ key scope store ≡ some r
      → (Dict.get key (rows_at where_ store) ≡ some r) × (within r scope ≡ true)
  unfolding row
  row-found where_ key scope store r h = elim (Option-cases (Dict.get key (rows_at where_ store))) [
    | inl e ↦ let wrong = rw (row, e) at h in cc
    | inr (s, e) ↦ elim (Bool-cases (within s scope)) [
      | inl e' ↦
          let one : s ≡ r = some-injective s r (rw (row, e, e') at h) in
          (e ∙ ap some one, subst (λ q. within q scope ≡ true) one e')
      | inr e' ↦ let wrong = rw (row, e, e') at h in cc
    ]
  ]

  found-IsOurs :
      (at : At) (scope : Option (Scope F)) (key : String) (store : Store F) (r : Row F)
      → Dict.get key (rows_at (home at) store) ≡ some r
      → within r scope ≡ true
      → IsOurs at scope key store
  found-IsOurs at scope key store r e w old e' =
      subst (λ q. within q scope ≡ true) (some-injective r old (sym e ∙ e')) w

  get-merge :
      (name : String) (before changes : Record F)
      → Dict.get name changes ≡ none
      → Dict.get name (merge before changes) ≡ Dict.get name before
  unfolding merge Dict.get
  get-merge name before [] h = refl
  get-merge name before ((other, v) ∷ changes) h =
      get-merge name (set other v before) changes (ground arith)
      ∙ get-set other name v before
      ∙ if-false {b = other == name} (some v) (Dict.get name before) (ground arith)

  put_judged-Change :
      (at : At) (key : String) (r : Record F) (scope : Option (Scope F)) (store : Store F)
      → text_of (Dict.get at.key r) ≡ key
      → IsOurs at scope key store
      → Change at scope store (put_judged at key r scope store).0
  unfolding put_judged
  put_judged-Change at key r scope store own ours =
      elim (Option-cases (violated at r scope store)) [
        | inl e ↦
            kept key (record { record_ = r; scope = scope }) (rw (put_judged, e) refl) own e ours
        | inr (broken, e) ↦ same (rw (put_judged, e) refl)
      ]

  put-Change :
      (at : At) (r : Record F) (replace : Bool) (scope : Option (Scope F)) (store : Store F)
      → Change at scope store (put at r replace scope store).0
  unfolding put
  put-Change at r replace scope store =
      let key = text_of (Dict.get at.key r) in
      elim (Option-cases (Dict.get key (rows_at (home at) store))) [
        | inl e ↦ rw (put, e) (put_judged-Change at key r scope store refl (λ old there. cc))
        | inr (old, e) ↦ elim (Bool-cases (not (within old scope) || not replace)) [
          | inl e' ↦ same (rw (put, e, e') refl)
          | inr e' ↦
              rw (put, e, e')
                (put_judged-Change at key r scope store refl
                  (found-IsOurs at scope key store old e (ground arith)))
        ]
      ]

  patch_row-Change :
      (at : At) (key : String) (r : Row F) (changes : Record F) (scope : Option (Scope F))
      (store : Store F)
      → Dict.get at.key changes ≡ none
      → text_of (Dict.get at.key r.record_) ≡ key
      → IsOurs at scope key store
      → Change at scope store (patch_row at key r changes store).0
  unfolding patch_row
  patch_row-Change at key r changes scope store untouched own ours =
      let after = merge r.record_ changes in
      elim (Option-cases (violated at after r.scope store)) [
        | inl e ↦
            kept key (record { record_ = after; scope = r.scope }) (rw (patch_row, e) refl)
              (ap text_of (get-merge at.key r.record_ changes untouched) ∙ own) e ours
        | inr (broken, e) ↦ same (rw (patch_row, e) refl)
      ]

  patch-Change :
      (at : At) (key : Value F) (changes : Record F) (scope : Option (Scope F)) (store : Store F)
      → IsKeyed at store
      → Change at scope store (patch at key changes scope store).0
  unfolding patch
  patch-Change at key changes scope store keyed = elim (Option-cases (Dict.get at.key changes)) [
    | inr (v, e) ↦ same (rw (patch, e) refl)
    | inl e ↦ elim (Option-cases (row (home at) (text_of (some key)) scope store)) [
      | inl e' ↦ same (rw (patch, e, e') refl)
      | inr (old, e') ↦
          let (there, ours) = row-found (home at) (text_of (some key)) scope store old e' in
          rw (patch, e, e')
            (patch_row-Change at (text_of (some key)) old changes scope store e
              (keyed (text_of (some key)) old there)
              (found-IsOurs at scope (text_of (some key)) store old there ours))
    ]
  ]

  remove-Change :
      (at : At) (key : Value F) (scope : Option (Scope F)) (store : Store F)
      → Change at scope store (remove at key scope store).0
  unfolding remove
  remove-Change at key scope store =
      elim (Option-cases (row (home at) (text_of (some key)) scope store)) [
        | inl e ↦ same (rw (remove, e) refl)
        | inr (old, e) ↦ elim (Option-cases (held at (text_of (some key)) store)) [
          | inr (ref, e') ↦ same (rw (remove, e, e') refl)
          | inl e' ↦
              let (there, ours) = row-found (home at) (text_of (some key)) scope store old e in
              dropped (text_of (some key)) (rw (remove, e, e') refl) e'
                (found-IsOurs at scope (text_of (some key)) store old there ours)
        ]
      ]

  -- What a write does, where every row of the collection is under its own key.
  pub step-Change :
      (at : At) (op : Op F) (scope : Option (Scope F)) (store : Store F)
      → IsKeyed at store
      → Change at scope store (step at op scope store)
  unfolding step
  step-Change at (put_op r replace) scope store keyed = put-Change at r replace scope store
  step-Change at (patch_op key changes) scope store keyed =
      patch-Change at key changes scope store keyed
  step-Change at (remove_op key) scope store keyed = remove-Change at key scope store
