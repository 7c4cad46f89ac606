-- ===== src/Expr/BlobFree.antt =====
-- Types without a blob in them, for the reads of packages/core/src/values.ts.
use mathlib.Core.Path.{subst}
use mathlib.Core.Option.{some-injective}
use wilanis_js.Common.{String, ◌≡◌, some, Bool-cases, inl, inr}
use wilanis_js.Common.{◌==◌}
use wilanis_js.Types.{Ty, blob, list, object}
use wilanis_js.Types.{Fields, bare, field, Open, closed, open_to, ObjField, field?}

-- A type that no blob is in: a handle's own fields are not judged whole.
abbrev mutual
  pub IsBlobFree : Ty → Type 0
  IsBlobFree (list of max empty) = IsBlobFree of
  IsBlobFree (object name fields rest) = IsBlobFreeFields fields × IsBlobFreeOpen rest
  IsBlobFree blob = ⊥
  IsBlobFree _ = Unit

  pub IsBlobFreeFields : Fields → Type 0
  IsBlobFreeFields bare = Unit
  IsBlobFreeFields (field name t required marks rest) = IsBlobFree t × IsBlobFreeFields rest

  pub IsBlobFreeOpen : Open → Type 0
  IsBlobFreeOpen closed = Unit
  IsBlobFreeOpen (open_to t) = IsBlobFree t

pub field?-IsBlobFree :
    (fields : Fields) (name : String) (f : ObjField)
    → IsBlobFreeFields fields
    → field? name fields ≡ some f
    → IsBlobFree f.type
field?-IsBlobFree bare name f b h = cc
field?-IsBlobFree (field key t required marks rest) name f b h = elim (Bool-cases (key == name)) [
  | inl e ↦
      let same : record { type = t; required = required } ≡ f = some-injective _ _ (rw e at h) in
      subst (λ (g : ObjField). IsBlobFree g.type) same b.0
  | inr e ↦ field?-IsBlobFree rest name f b.1 (rw e at h)
]
