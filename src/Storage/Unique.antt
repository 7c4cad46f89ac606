-- ===== src/Storage/Unique.antt =====
-- packages/plugin-storage-memory/src/engine.ts: no write makes two records of one scope repeat what
-- the collection says is unique.
use mathlib.Core.Path.{subst}
use wilanis_js.Common.{◌≡◌, sym, ap, ◌∙◌, String, true, false, ◌==◌}
use wilanis_js.Common.{Option, none, some, eq_iff}
use wilanis_js.Common.{Option-cases, inl, inr, ◌⊎◌, All, All-map}
use wilanis_js.Common.Dict.{get}
use wilanis_js.Storage.{Spelling, Record, Scope, Row, Store, At, home, rows_at}
use wilanis_js.Storage.Rows.{text_of, agrees, repeats}
use wilanis_js.Storage.Write.{violated}
use wilanis_js.Storage.Changes.{Change, same, kept, dropped, IsKeyed}
use wilanis_js.Storage.Lookup.{lookup, lookup-keep, lookup-drop_row}
use wilanis_js.Storage.Alike.{agrees-sym, within-own, others-agree, first_of-none, IsScope, eq_sym}

module _ {F : Type 0} ⦃js : Spelling F⦄ where
  -- Two rows of one collection, under two keys and of one scope, repeat no constraint.
  abbrev pub Differ : At → Row F → Row F → Type 0
  Differ at r r' = All (λ fields. agrees fields r.record_ r'.record_ ≡ false) at.unique

  abbrev pub IsUnique : At → Store F → Type 0
  IsUnique at store =
      (k k' : String) (r r' : Row F)
      → lookup (home at) k store ≡ some r
      → lookup (home at) k' store ≡ some r'
      → (k == k') ≡ false
      → r.scope ≡ r'.scope
      → IsScope r.scope
      → Differ at r r'

  repeats-none :
      (at : At) (r : Record F) (scope : Option (Scope F)) (store : Store F)
      → violated at r scope store ≡ none
      → repeats at r scope store ≡ none
  unfolding violated
  repeats-none at r scope store h = elim (Option-cases (repeats at r scope store)) [
    | inl e ↦ e
    | inr (fields, e) ↦ let wrong = rw (violated, e) at h in cc
  ]

  -- A record that repeats nothing differs from every other row of its scope.
  new-Differ :
      (at : At) (key k : String) (r found : Row F) (store : Store F)
      → text_of (get at.key r.record_) ≡ key
      → violated at r.record_ r.scope store ≡ none
      → lookup (home at) k store ≡ some found
      → (k == key) ≡ false
      → found.scope ≡ r.scope
      → IsScope r.scope
      → Differ at found r
  unfolding repeats
  new-Differ at key k r found store own h there other scoped proper =
      All-map _ _ at.unique
        (λ fields none_agrees.
          others-agree (text_of (get at.key r.record_)) r.scope (rows_at (home at) store)
            (λ o. agrees fields o r.record_) k found none_agrees there
            (subst (λ x. (k == x) ≡ false) (sym own) other)
            (within-own found r.scope scoped proper))
        (first_of-none _ at.unique (repeats-none at r.record_ r.scope store h))

  Differ-sym : (at : At) (r r' : Row F) → Differ at r r' → Differ at r' r
  Differ-sym at r r' h =
      All-map _ _ at.unique (λ fields e. agrees-sym fields r'.record_ r.record_ ∙ e) h

  kept-Differ :
      (at : At) (key k k' : String) (r q q' : Row F) (before : Store F)
      → text_of (get at.key r.record_) ≡ key
      → violated at r.record_ r.scope before ≡ none
      → IsUnique at before
      → ((home at ≡ home at) × (key ≡ k) × (r ≡ q)) ⊎ (lookup (home at) k before ≡ some q)
      → ((home at ≡ home at) × (key ≡ k') × (r ≡ q')) ⊎ (lookup (home at) k' before ≡ some q')
      → (k == k') ≡ false
      → q.scope ≡ q'.scope
      → IsScope q.scope
      → Differ at q q'
  kept-Differ at key k k' r q q' before own fine unique (inl (_, ek, er)) (inl (_, ek', er')) other
        scoped proper =
      let wrong : (k == k') ≡ true = (eq_iff k k').1 (sym ek ∙ ek') in cc
  kept-Differ at key k k' r q q' before own fine unique (inl (_, ek, er)) (inr old') other scoped
        proper =
      let scope_is = ap (λ (x : Row F). x.scope) er in
      subst (λ x. Differ at x q') er
        (Differ-sym at q' r (
          new-Differ at key k' r q' before own fine old'
            (subst (λ x. (k' == x) ≡ false) (sym ek) (eq_sym k' k ∙ other))
            (sym scoped ∙ sym scope_is) (subst IsScope (sym scope_is) proper)))
  kept-Differ at key k k' r q q' before own fine unique (inr old) (inl (_, ek', er')) other scoped
        proper =
      let scope_is = ap (λ (x : Row F). x.scope) er' in
      subst (λ x. Differ at q x) er'
        (new-Differ at key k r q before own fine old (subst (λ x. (k == x) ≡ false) (sym ek') other)
          (scoped ∙ sym scope_is) (subst IsScope (scoped ∙ sym scope_is) proper))
  kept-Differ at key k k' r q q' before own fine unique (inr old) (inr old') other scoped proper =
      unique k k' q q' old old' other scoped proper

  pub Change-IsUnique :
      (at : At) (scope : Option (Scope F)) (before after : Store F)
      → Change at scope before after
      → IsUnique at before
      → IsUnique at after
  Change-IsUnique at scope before after (same e) unique = subst (IsUnique at) (sym e) unique
  Change-IsUnique at scope before after (dropped key e free ours) unique =
      subst (IsUnique at) (sym e) (λ k k' r r' h h'.
        unique k k' r r' (lookup-drop_row (home at) key before (home at) k r h)
          (lookup-drop_row (home at) key before (home at) k' r' h'))
  Change-IsUnique at scope before after (kept key r e own fine ours) unique =
      subst (IsUnique at) (sym e) (λ k k' q q' h h'.
        kept-Differ at key k k' r q q' before own fine unique
          (lookup-keep (home at) key r before (home at) k q h)
          (lookup-keep (home at) key r before (home at) k' q' h'))

  pub Change-IsKeyed :
      (at : At) (scope : Option (Scope F)) (before after : Store F)
      → Change at scope before after
      → IsKeyed at before
      → IsKeyed at after
  Change-IsKeyed at scope before after (same e) keyed = subst (IsKeyed at) (sym e) keyed
  Change-IsKeyed at scope before after (dropped key e free ours) keyed =
      subst (IsKeyed at) (sym e)
        (λ k q h. keyed k q (lookup-drop_row (home at) key before (home at) k q h))
  Change-IsKeyed at scope before after (kept key r e own fine ours) keyed =
      subst (IsKeyed at) (sym e) (λ k q h.
        elim (lookup-keep (home at) key r before (home at) k q h) [
          | inl (_, ek, er) ↦
              subst (λ (x : Row F). text_of (get at.key x.record_) ≡ k) er (own ∙ ek)
          | inr old ↦ keyed k q old
        ])
