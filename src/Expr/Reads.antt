-- ===== src/Expr/Reads.antt =====
-- Reads of a value at a path against reads of its type: what `typeAt` answers holds of what
-- `readValue` finds.
use mathlib.Core.Path.{subst}
use wilanis_js.Common.{
  ℕ, zero, suc, String, Bool, true, false, ◌≡◌, refl, sym, ◌∙◌, Option, none, some,
}
use wilanis_js.Common.{List, [], ◌∷◌, inl, inr}
use wilanis_js.Common.{take, drop}
use wilanis_js.Types.{Value, Floats}
use wilanis_js.Types.{Ty}
use wilanis_js.Types.Conform.{problem_of}
use wilanis_js.Types.TypeAt.{Read, read, read_into, type_at, type_at_from}
use wilanis_js.Expr.BlobFree.{IsBlobFree}
use wilanis_js.Expr.{Coercions, read_segment, read_segments, is_there}
use wilanis_js.Expr.Turns.{Fits, Carried, step-Fits, read-injective, ReadResult-cases}

module _ {F : Type 0} ⦃fl : Floats F⦄ ⦃js : Coercions F⦄ where
  -- What the type at a path says holds of the value at that path.
  pub type_at_from-Fits :
      (current : Option (Value F)) (t : Ty) (optional : Bool) (path : List String) (r : Read)
      → IsBlobFree t
      → type_at_from t optional path ≡ read r
      → Carried current t optional (read_segments current path) r
  unfolding type_at_from read_segments
  type_at_from-Fits current t optional [] r b h =
      subst (λ s. Carried current t optional current s) (read-injective _ r h) (λ fit. fit, b)
  type_at_from-Fits current t optional (segment ∷ path) r b h =
      elim (ReadResult-cases (read_into t optional segment)) [
        | inl (s, e) ↦
            let (once, b') = step-Fits current t optional segment s b e in
            let (more, b'') =
              type_at_from-Fits (read_segment current segment) s.type s.optional path r b'
                (rw (type_at_from, e) at h) in
            (λ fit. more (once fit), b'')
        | inr (why, e) ↦ let wrong = rw (type_at_from, e) at h in cc
      ]

  read_segments-none : (path : List String) → read_segments {F = F} none path ≡ none
  unfolding read_segments read_segment
  read_segments-none [] = refl
  read_segments-none (segment ∷ path) = read_segments-none path

  -- What is found at a path conforms to the type at the path, be it that something on the way is
  -- optional or not.
  pub type_at-conforms :
      (current : Option (Value F)) (t : Ty) (path : List String) (r : Read)
      → ((v : Value F) → current ≡ some v → problem_of v t ≡ none)
      → IsBlobFree t
      → type_at t path ≡ read r
      → ((w : Value F) → read_segments current path ≡ some w → problem_of w r.type ≡ none)
  unfolding type_at is_there
  type_at-conforms none t path r fit b h w found =
      let nothing = sym (read_segments-none path) ∙ found in cc
  type_at-conforms (some v) t path r fit b h w found =
      let (kept, _) = type_at_from-Fits (some v) t false path r b h in
      (kept (fit, λ sure. refl)).0 w found

  -- What is found at a path is there, where the type at the path is not optional.
  pub type_at-there :
      (current : Option (Value F)) (t : Ty) (path : List String) (r : Read)
      → Fits current t false
      → IsBlobFree t
      → type_at t path ≡ read r
      → r.optional ≡ false
      → is_there (read_segments current path) ≡ true
  unfolding type_at
  type_at-there current t path r fit b h sure =
      ((type_at_from-Fits current t false path r b h).0 fit).1 sure

  pub type_at-IsBlobFree :
      (current : Option (Value F)) (t : Ty) (path : List String) (r : Read)
      → IsBlobFree t
      → type_at t path ≡ read r
      → IsBlobFree r.type
  unfolding type_at
  type_at-IsBlobFree current t path r b h = (type_at_from-Fits current t false path r b h).1

  pub read_segments-split :
      (k : ℕ) (current : Option (Value F)) (path : List String)
      → read_segments (read_segments current (take k path)) (drop k path)
        ≡ read_segments current path
  unfolding read_segments
  read_segments-split zero current path = refl
  read_segments-split (suc k) current [] = refl
  read_segments-split (suc k) current (segment ∷ path) =
      read_segments-split k (read_segment current segment) path
