-- ===== src/Storage/Scope.antt =====
-- packages/plugin-storage-memory/src/engine.ts: a write under a scope reaches no row of another.
use mathlib.Core.Path.{subst}
use wilanis_js.Common.{◌≡◌, sym, String, true, false, Option, some, inl, inr, ◌≢◌}
use wilanis_js.Storage.{Spelling, Scope, Row, Store, At, home}
use wilanis_js.Storage.Rows.{within}
use wilanis_js.Storage.Changes.{Change, same, kept, dropped, IsKeyed, Op, step, step-Change}
use wilanis_js.Storage.Lookup.{lookup, keep-lookup, drop_row-lookup}

module _ {F : Type 0} ⦃js : Spelling F⦄ where
  not_ours :
      (at : At) (scope : Option (Scope F)) (key k where_ : String) (r : Row F) (store : Store F)
      → home at ≡ where_
      → key ≡ k
      → (lookup (home at) key store ≡ some r → within r scope ≡ true)
      → lookup where_ k store ≡ some r
      → within r scope ≢ false
  not_ours at scope key k where_ r store here ek ours h outside =
      let inside = ours (
        subst (λ w. lookup w key store ≡ some r) (sym here)
          (subst (λ x. lookup where_ x store ≡ some r) (sym ek) h)) in
      cc

  Change-leaves :
      (at : At) (scope : Option (Scope F)) (before after : Store F) (where_ k : String) (r : Row F)
      → Change at scope before after
      → lookup where_ k before ≡ some r
      → (home at ≡ where_ → within r scope ≡ false)
      → lookup where_ k after ≡ some r
  Change-leaves at scope before after where_ k r (same e) h apart =
      subst (λ s. lookup where_ k s ≡ some r) (sym e) h
  Change-leaves at scope before after where_ k r (kept key q e own fine ours) h apart =
      subst (λ s. lookup where_ k s ≡ some r) (sym e)
        (elim (keep-lookup (home at) key q before where_ k r h) [
          | inr there ↦ there
          | inl (here, ek, _) ↦
              absurd (not_ours at scope key k where_ r before here ek (ours r) h (apart here))
        ])
  Change-leaves at scope before after where_ k r (dropped key e free ours) h apart =
      subst (λ s. lookup where_ k s ≡ some r) (sym e)
        (elim (drop_row-lookup (home at) key before where_ k r h) [
          | inr there ↦ there
          | inl (here, ek) ↦
              absurd (not_ours at scope key k where_ r before here ek (ours r) h (apart here))
        ])

  -- Where every row of a collection is under its own key, a put, a patch or a remove on the
  -- collection under a scope leaves every row of another collection as it is, and every row of
  -- this one that is not within the scope.
  pub step-leaves :
      (at : At) (op : Op F) (scope : Option (Scope F)) (store : Store F) (where_ k : String)
      (r : Row F)
      → IsKeyed at store
      → lookup where_ k store ≡ some r
      → (home at ≡ where_ → within r scope ≡ false)
      → lookup where_ k (step at op scope store) ≡ some r
  step-leaves at op scope store where_ k r keyed h apart =
      Change-leaves at scope store (step at op scope store) where_ k r
        (step-Change at op scope store keyed) h apart
