-- ===== src/Storage/Run.antt =====
-- packages/plugin-storage-memory/src/engine.ts: what holds of every collection of a store over any
-- writes.
use mathlib.Core.Path.{subst}
use wilanis_js.Common.{◌≡◌, sym, ap, ◌∙◌, String, true, false, ◌==◌, eq_iff}
use wilanis_js.Common.{Option, none, some, List, [], ◌∷◌, Bool-cases, inl, inr, All, IsAmong}
use wilanis_js.Common.Dict.{get}
use wilanis_js.Storage.{Spelling, Scope, Row, Store, Ref, At, home, place}
use wilanis_js.Storage.Rows.{held_key, has_key}
use wilanis_js.Storage.Changes.{Change, same, kept, dropped, IsKeyed, Op, step, step-Change}
use wilanis_js.Storage.Lookup.{
  lookup, lookup-keep, keep-lookup, lookup-drop_row, drop_row-lookup, drop_row,
}
use wilanis_js.Storage.Write.{keep, violated}
use wilanis_js.Storage.Unique.{IsUnique, Change-IsUnique, Change-IsKeyed}
use wilanis_js.Storage.Refs.{IsReferential, has_key-row, row-has_key, new-refers, held-none}

-- The collections of a store, as the tree declares them: two of one place are one, and a reference
-- is known to the collection that it points at.
pub record Schema (IsDeclared : At → Type 0) : Type 0 where
  pub one : (a b : At) → IsDeclared a → IsDeclared b → home a ≡ home b → a ≡ b
  pub mirrored :
      (a b : At) (ref : Ref)
      → IsDeclared a
      → IsDeclared b
      → IsAmong ref a.refs
      → home b ≡ place a.connection ref.to
      → IsAmong ref b.referenced × (place b.connection ref.from ≡ home a)

module _ {F : Type 0} ⦃js : Spelling F⦄ where
  -- Writes in turn, each on a collection and under a scope.
  unfoldable pub run : List (At × Op F × Option (Scope F)) → Store F → Store F
  unfolding step
  run [] store = store
  run ((at, op, scope) ∷ rest) store = run rest (step at op scope store)

  -- A row of another collection is as it was.
  Change-elsewhere :
      (at : At) (scope : Option (Scope F)) (before after : Store F) (where_ k : String) (r : Row F)
      → Change at scope before after
      → (home at == where_) ≡ false
      → lookup where_ k after ≡ some r
      → lookup where_ k before ≡ some r
  Change-elsewhere at scope before after where_ k r (same e) apart h =
      subst (λ s. lookup where_ k s ≡ some r) e h
  Change-elsewhere at scope before after where_ k r (dropped key e free ours) apart h =
      lookup-drop_row (home at) key before where_ k r (subst (λ s. lookup where_ k s ≡ some r) e h)
  Change-elsewhere at scope before after where_ k r (kept key q e own fine ours) apart h =
      elim (lookup-keep (home at) key q before where_ k r
        (subst (λ s. lookup where_ k s ≡ some r) e h)) [
          | inr old ↦ old
          | inl (here, _, _) ↦
              let wrong : (home at == where_) ≡ true = (eq_iff (home at) where_).1 here in cc
        ]

  keep-has_key :
      (where_ key : String) (r : Row F) (store : Store F) (connection name k : String)
      → has_key connection name k store ≡ true
      → has_key connection name k (keep where_ key r store) ≡ true
  keep-has_key where_ key r store connection name k h =
      let (found, e) = has_key-row connection name k store h in
      elim (keep-lookup where_ key r store (place connection name) k found e) [
        | inl (_, _, there) ↦ row-has_key connection name k (keep where_ key r store) r there
        | inr there ↦ row-has_key connection name k (keep where_ key r store) found there
      ]

module _ {F : Type 0} ⦃js : Spelling F⦄ (IsDeclared : At → Type 0)
    (schema : Schema IsDeclared) where
  -- Every declared collection's rows are each under their own key, repeat nothing that is unique
  -- within one scope, and refer only to what is there.
  abbrev pub IsSound : Store F → Type 0
  IsSound store =
      (at : At) → IsDeclared at → IsKeyed at store × IsUnique at store × IsReferential at store

  Change-IsReferential :
      (at b : At) (scope : Option (Scope F)) (before after : Store F)
      → IsDeclared at
      → IsDeclared b
      → Change b scope before after
      → IsReferential at before
      → IsReferential at after
  Change-IsReferential at b scope before after da db (same e) sound =
      subst (IsReferential at) (sym e) sound
  Change-IsReferential at b scope before after da db (kept key r e own fine ours) sound =
      subst (IsReferential at) (sym e) (λ k key' q ref h among e'.
        keep-has_key (home b) key r before at.connection ref.to key'
          (elim (lookup-keep (home b) key r before (home at) k q h) [
            | inr old ↦ sound k key' q ref old among e'
            | inl (here, _, er) ↦
                new-refers at key' r ref before
                  (subst (λ x. violated x r.record_ r.scope before ≡ none)
                    (schema.one b at db da here) fine)
                  among
                  (subst (λ (x : Row F). held_key (get ref.field x.record_) ≡ some key') (sym er)
                    e')
          ]))
  Change-IsReferential at b scope before after da db (dropped key e free ours) sound =
      subst (IsReferential at) (sym e) (λ k key' q ref h among e'.
        let was = lookup-drop_row (home b) key before (home at) k q h in
        let (target, there) =
          has_key-row at.connection ref.to key' before (sound k key' q ref was among e') in
        elim (drop_row-lookup (home b) key before (place at.connection ref.to) key' target there) [
          | inr still ↦
              row-has_key at.connection ref.to key' (drop_row (home b) key before) target still
          | inl (here, ek) ↦
              let (known, from) = schema.mirrored at b ref da db among here in
              absurd (
                held-none b key k q ref before free known
                  (subst (λ w. lookup w k before ≡ some q) (sym from) was) (e' ∙ ap some (sym ek)))
        ])

  Change-IsSound :
      (b : At) (scope : Option (Scope F)) (before after : Store F)
      → IsDeclared b
      → Change b scope before after
      → IsSound before
      → IsSound after
  Change-IsSound b scope before after db change sound at da =
      let (keyed, unique, referential) = sound at da in
      let refers = Change-IsReferential at b scope before after da db change referential in
      elim (Bool-cases (home b == home at)) [
        | inl e ↦
            let one : b ≡ at = schema.one b at db da ((eq_iff (home b) (home at)).0 e) in
            let here = subst (λ x. Change x scope before after) one change in
            (
              Change-IsKeyed at scope before after here keyed,
              Change-IsUnique at scope before after here unique,
              refers,
            )
        | inr e ↦ (
          λ k r h. keyed k r (Change-elsewhere b scope before after (home at) k r change e h),
          λ k k' r r' h h'.
              unique k k' r r' (Change-elsewhere b scope before after (home at) k r change e h)
                (Change-elsewhere b scope before after (home at) k' r' change e h'),
          refers,
        )
      ]

  -- Over any puts, patches and removes on the collections that a schema declares (two of one
  -- place are one, and a collection knows of each reference to it), each under its scope: where
  -- every collection's rows are under their own keys, repeat nothing that is unique within one
  -- scope and refer only to what is there, they still are and do after it.
  pub run-IsSound :
      (ops : List (At × Op F × Option (Scope F))) (store : Store F)
      → All (λ o. IsDeclared o.0) ops
      → IsSound store
      → IsSound (run ops store)
  unfolding run
  run-IsSound [] store declared sound = sound
  run-IsSound ((at, op, scope) ∷ rest) store declared sound =
      let change = step-Change at op scope store (sound at declared.0).0 in
      run-IsSound rest (step at op scope store) declared.1
        (Change-IsSound at scope store (step at op scope store) declared.0 change sound)
