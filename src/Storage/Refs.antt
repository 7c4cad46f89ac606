-- ===== src/Storage/Refs.antt =====
-- packages/plugin-storage-memory/src/engine.ts: no write leaves a reference to a record that is not
-- there.
use mathlib.Core.Option.{some-injective}
use wilanis_js.Common.{◌≡◌, refl, String, true, false, not, ◌==◌, eq_iff, ◌≢◌}
use wilanis_js.Common.{Option, none, some, Option-cases, inl, inr}
use wilanis_js.Common.{All-at, IsAmong, arith}
use wilanis_js.Common.Dict.{get, some_of-values}
use wilanis_js.Types.{Value, null}
use wilanis_js.Storage.{Spelling, Record, Scope, Row, Store, Ref, At, home, place, rows_at}
use wilanis_js.Storage.Rows.{text_of, held_key, has_key, repeats}
use wilanis_js.Storage.Write.{violated, dangles, breaks, held, holds}
use wilanis_js.Storage.Lookup.{lookup}
use wilanis_js.Storage.Alike.{first_of-none}

module _ {F : Type 0} ⦃js : Spelling F⦄ where
  -- Every key that a row of a collection refers by is there.
  abbrev pub IsReferential : At → Store F → Type 0
  IsReferential at store =
      (k key : String) (r : Row F) (ref : Ref)
      → lookup (home at) k store ≡ some r
      → IsAmong ref at.refs
      → held_key (get ref.field r.record_) ≡ some key
      → has_key at.connection ref.to key store ≡ true

  held_key-text : (o : Option (Value F)) (key : String) → held_key o ≡ some key → text_of o ≡ key
  unfolding held_key
  held_key-text none key h = cc
  held_key-text (some null) key h = cc
  held_key-text (some v) key h = some-injective _ key h

  pub has_key-row :
      (connection name key : String) (store : Store F)
      → has_key connection name key store ≡ true
      → (r : Row F) × (lookup (place connection name) key store ≡ some r)
  unfolding has_key
  has_key-row connection name key store h =
      elim (Option-cases (lookup (place connection name) key store)) [
        | inl e ↦ let wrong = rw (has_key, e) at h in cc
        | inr (r, e) ↦ (r, e)
      ]

  pub row-has_key :
      (connection name key : String) (store : Store F) (r : Row F)
      → lookup (place connection name) key store ≡ some r
      → has_key connection name key store ≡ true
  unfolding has_key
  row-has_key connection name key store r e = rw (has_key, e) refl

  dangles-none :
      (at : At) (r : Record F) (scope : Option (Scope F)) (store : Store F)
      → violated at r scope store ≡ none
      → dangles at r store ≡ none
  unfolding violated
  dangles-none at r scope store h = elim (Option-cases (repeats at r scope store)) [
    | inr (fields, e) ↦ let wrong = rw (violated, e) at h in cc
    | inl e ↦ elim (Option-cases (dangles at r store)) [
      | inl e' ↦ e'
      | inr (ref, e') ↦ let wrong = rw (violated, e, e') at h in cc
    ]
  ]

  breaks-false :
      (at : At) (key : String) (r : Row F) (ref : Ref) (store : Store F)
      → breaks at r.record_ store ref ≡ false
      → held_key (get ref.field r.record_) ≡ some key
      → has_key at.connection ref.to key store ≡ true
  unfolding breaks
  breaks-false at key r ref store h e =
      let missing : not (has_key at.connection ref.to key store) ≡ false = rw (breaks, e) at h in
      ground arith

  -- A record that was judged refers only to what is there.
  pub new-refers :
      (at : At) (key : String) (r : Row F) (ref : Ref) (store : Store F)
      → violated at r.record_ r.scope store ≡ none
      → IsAmong ref at.refs
      → held_key (get ref.field r.record_) ≡ some key
      → has_key at.connection ref.to key store ≡ true
  unfolding dangles
  new-refers at key r ref store fine among e =
      let sound =
        All-at _ at.refs ref
          (first_of-none (breaks at r.record_ store) at.refs
            (dangles-none at r.record_ r.scope store fine))
          among in
      breaks-false at key r ref store sound e

  -- A key that was deleted is held by no row.
  pub held-none :
      (at : At) (key k : String) (r : Row F) (ref : Ref) (store : Store F)
      → held at key store ≡ none
      → IsAmong ref at.referenced
      → lookup (place at.connection ref.from) k store ≡ some r
      → held_key (get ref.field r.record_) ≢ some key
  unfolding held holds
  held-none at key k r ref store h among there e =
      let test =
        some_of-values (λ (q : Row F). text_of (get ref.field q.record_) == key)
          (rows_at (place at.connection ref.from) store) k r
          (All-at _ at.referenced ref (first_of-none _ at.referenced h) among) there in
      let hit : (text_of (get ref.field r.record_) == key) ≡ true =
        (eq_iff (text_of (get ref.field r.record_)) key).1 (held_key-text _ key e) in
      cc
