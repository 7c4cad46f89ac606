-- ===== src/Storage/Read.antt =====
-- packages/plugin-storage-memory/src/engine.ts: what is read back after a write.
use mathlib.Core.Path.{subst}
use wilanis_js.Common.{◌≡◌, refl, ap, ◌∙◌, String, Bool, true, not, ◌||◌, ◌==◌, eq_iff}
use wilanis_js.Common.{Option, some, if-true, Bool-cases, Option-cases, inl, inr}
use wilanis_js.Common.Dict.{set, delete, get-set, get-delete}
use wilanis_js.Common.Dict as Dict
use wilanis_js.Types.{Value}
use wilanis_js.Storage.{Spelling, Record, Scope, Row, Store, At, home, rows_at}
use wilanis_js.Storage.{conflict, put_violated, put_record}
use wilanis_js.Storage.Rows.{within, text_of, row, get}
use wilanis_js.Storage.Write.{violated, keep, put, put_judged}
use wilanis_js.Storage.Lookup.{lookup, lookup-set}
use wilanis_js.Storage.Alike.{IsScope, within-own}

same_key : (s : String) → (s == s) ≡ true
same_key s = (eq_iff s s).1 refl

module _ {F : Type 0} ⦃js : Spelling F⦄ where
  lookup-kept :
      (home key : String) (r : Row F) (store : Store F)
      → lookup home key (keep home key r store) ≡ some r
  unfolding keep
  lookup-kept home key r store =
      lookup-set home home key (set key r (rows_at home store)) store
      ∙ if-true _ _ (same_key home)
      ∙ get-set key key r (rows_at home store)
      ∙ if-true _ _ (same_key key)

  found-get :
      (at : At) (key : Value F) (scope : Option (Scope F)) (store : Store F) (r : Row F)
      → lookup (home at) (text_of (some key)) store ≡ some r
      → within r scope ≡ true
      → get at key scope store ≡ some r.record_
  unfolding get row
  found-get at key scope store r e inside = rw (get, row, e, inside) refl

  put_judged-get :
      (at : At) (key : Value F) (k : String) (r answer : Record F) (scope : Option (Scope F))
      (store after : Store F)
      → IsScope scope
      → k ≡ text_of (some key)
      → put_judged at k r scope store ≡ (after, put_record answer)
      → get at key scope after ≡ some r
  unfolding put_judged
  put_judged-get at key k r answer scope store after proper own h =
      elim (Option-cases (violated at r scope store)) [
        | inr (broken, e) ↦
            let wrong : put_violated broken ≡ put_record answer =
              ap (λ p. p.1) (rw (put_judged, e) at h) in
            cc
        | inl e ↦
            let written : Row F = record { record_ = r; scope = scope } in
            subst (λ s. get at key scope s ≡ some r) (ap (λ p. p.0) (rw (put_judged, e) at h))
              (found-get at key scope (keep (home at) k written store) written
                (subst (λ x. lookup (home at) x (keep (home at) k written store) ≡ some written) own
                  (lookup-kept (home at) k written store))
                (within-own written scope refl proper))
      ]

  -- Where a put under a scope that names no column twice, or under none, answers a record, a get
  -- under that scope of a key that is spelled as the record's answers the record that was put.
  pub put-get :
      (at : At) (key : Value F) (r answer : Record F) (replace : Bool) (scope : Option (Scope F))
      (store after : Store F)
      → IsScope scope
      → text_of (Dict.get at.key r) ≡ text_of (some key)
      → put at r replace scope store ≡ (after, put_record answer)
      → get at key scope after ≡ some r
  unfolding put
  put-get at key r answer replace scope store after proper own h =
      let k = text_of (Dict.get at.key r) in
      elim (Option-cases (lookup (home at) k store)) [
        | inl e ↦ put_judged-get at key k r answer scope store after proper own (rw (put, e) at h)
        | inr (old, e) ↦ elim (Bool-cases (not (within old scope) || not replace)) [
          | inl e' ↦
              let wrong : conflict ≡ put_record answer = ap (λ p. p.1) (rw (put, e, e') at h) in cc
          | inr e' ↦
              put_judged-get at key k r answer scope store after proper own (rw (put, e, e') at h)
        ]
      ]
