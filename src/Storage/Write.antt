-- ===== src/Storage/Write.antt =====
-- packages/plugin-storage-memory/src/engine.ts: put, patch and remove, with the guard that
-- packages/plugin-storage/src/handlers.ts sets before a patch.
use wilanis_js.Common.{String, Bool, false, not, ◌||◌, ◌==◌, Option, none, some}
use wilanis_js.Common.{List, [], ◌∷◌, if◌then◌else◌, some_of, first}
use wilanis_js.Common.Dict.{Dict, set, delete, values}
use wilanis_js.Common.Dict as Dict
use wilanis_js.Types.{Value}
use wilanis_js.Storage.{Spelling, Record, Scope, Row, Store, Ref, At}
use wilanis_js.Storage.{
  Violation, unique_of, refs_of, PutAnswer, conflict, put_violated, put_record,
}
use wilanis_js.Storage.{PatchAnswer, nothing_there, patch_violated, patched, key_patched}
use wilanis_js.Storage.{RemoveAnswer, not_there, referenced_by, removed, place, rows_at, first_of}
use wilanis_js.Storage.Rows.{within, text_of, row, repeats, held_key, has_key}

module _ {F : Type 0} ⦃js : Spelling F⦄ where
  unfoldable pub breaks : At → Record F → Store F → Ref → Bool
  unfolding held_key has_key
  breaks at r store ref = elim (held_key (Dict.get ref.field r)) [
    | none ↦ false
    | some key ↦ not (has_key at.connection ref.to key store)
  ]

  unfoldable pub dangles : At → Record F → Store F → Option Ref
  unfolding breaks
  dangles at r store = first_of (breaks at r store) at.refs

  -- `repeats ?? dangles`
  unfoldable pub violated : At → Record F → Option (Scope F) → Store F → Option Violation
  unfolding repeats dangles
  violated at r scope store =
      first
        (elim (repeats at r scope store) [ none ↦ none | some fields ↦ some (unique_of fields) ])
        (elim (dangles at r store) [ none ↦ none | some ref ↦ some (refs_of ref) ])

  -- `this.records(at).set(key, row)`
  unfoldable pub keep : String → String → Row F → Store F → Store F
  unfolding rows_at
  keep where_ key r store = set where_ (set key r (rows_at where_ store)) store

  -- What `put` does where neither the scope nor `replace` stops it.
  unfoldable pub put_judged :
      At → String → Record F → Option (Scope F) → Store F → Store F × PutAnswer F
  unfolding violated keep place
  put_judged at key r scope store = elim (violated at r scope store) [
    | some broken ↦ (store, put_violated broken)
    | none ↦ (
      keep (place at.connection at.name) key (record { record_ = r; scope = scope }) store,
      put_record r,
    )
  ]

  unfoldable pub put : At → Record F → Bool → Option (Scope F) → Store F → Store F × PutAnswer F
  unfolding put_judged within text_of rows_at place
  put at r replace scope store =
      let key = text_of (Dict.get at.key r) in
      elim (Dict.get key (rows_at (place at.connection at.name) store)) [
        | none ↦ put_judged at key r scope store
        | some held ↦
            if not (within held scope) || not replace
            then (store, conflict)
            else put_judged at key r scope store
      ]

  -- `{ ...before, ...changes }`
  unfoldable pub merge : Record F → Record F → Record F
  merge before [] = before
  merge before ((name, v) ∷ changes) = merge (set name v before) changes

  -- The engine's `patch`, of a row that is there.
  unfoldable pub patch_row : At → String → Row F → Record F → Store F → Store F × PatchAnswer F
  unfolding violated keep merge place
  patch_row at key before changes store =
      let after = merge before.record_ changes in
      elim (violated at after before.scope store) [
        | some broken ↦ (store, patch_violated broken)
        | none ↦ (
          keep (place at.connection at.name) key (record { record_ = after; scope = before.scope })
              store,
          patched after,
        )
      ]

  -- The handler's guard, then the engine's `patch`.
  unfoldable pub patch :
      At → Value F → Record F → Option (Scope F) → Store F → Store F × PatchAnswer F
  unfolding row patch_row text_of place
  patch at key changes scope store = elim (Dict.get at.key changes) [
    | some v ↦ (store, key_patched)
    | none ↦ elim (row (place at.connection at.name) (text_of (some key)) scope store) [
      | none ↦ (store, nothing_there)
      | some before ↦ patch_row at (text_of (some key)) before changes store
    ]
  ]

  -- Whether a row still holds this key by a reference.
  unfoldable pub holds : String → Ref → List (Row F) → Bool
  unfolding text_of
  holds key ref rows = some_of (λ (r : Row F). text_of (Dict.get ref.field r.record_) == key) rows

  unfoldable pub held : At → String → Store F → Option Ref
  unfolding holds rows_at place
  held at key store =
      first_of (λ ref. holds key ref (values (rows_at (place at.connection ref.from) store)))
        at.referenced

  unfoldable pub remove : At → Value F → Option (Scope F) → Store F → Store F × RemoveAnswer F
  unfolding row held text_of rows_at place
  remove at key scope store =
      let where_ = place at.connection at.name in
      elim (row where_ (text_of (some key)) scope store) [
        | none ↦ (store, not_there)
        | some before ↦ elim (held at (text_of (some key)) store) [
          | some ref ↦ (store, referenced_by before.record_ ref)
          | none ↦ (
            set where_ (delete (text_of (some key)) (rows_at where_ store)) store,
            removed before.record_,
          )
        ]
      ]
