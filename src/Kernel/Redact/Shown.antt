-- ===== src/Kernel/Redact/Shown.antt =====
-- packages/engine/src/redact.ts: at every place that a listed path leads to, a report shows the marker.
use wilanis_js.Common.{String, List, [], ◌∷◌, ◌≡◌, refl, sym, All}
use mathlib.Core.Path.{subst}
use wilanis_js.Types.{Value}
use wilanis_js.Kernel.Redact.{secret, redact_in, redact_at, redact_value}
use wilanis_js.Kernel.Redact.Marked.{IsMarked, redact_in-AtEach, redact_in-keeps}

module _ {F : Type 0} where
  secret-IsMarked : (path : List String) (v : Value F) → v ≡ secret → IsMarked path v
  unfolding IsMarked
  secret-IsMarked [] v e = e
  secret-IsMarked (name ∷ rest) v e = subst (IsMarked (name ∷ rest)) (sym e) tt

  redact_at-IsMarked :
      (name : String) (rest : List String) (v : Value F)
      → IsMarked (name ∷ rest) (redact_at name rest v)
  unfolding redact_at IsMarked
  redact_at-IsMarked name [] v = redact_in-AtEach name (λ w. secret) (λ w. w ≡ secret) (λ w. refl) v
  redact_at-IsMarked name (field ∷ rest) v =
      redact_in-AtEach name (redact_at field rest) (IsMarked (field ∷ rest))
        (redact_at-IsMarked field rest) v

  -- No path takes a marker away that another has put.
  redact_at-keeps :
      (path : List String) (name : String) (rest : List String) (v : Value F)
      → IsMarked path v
      → IsMarked path (redact_at name rest v)
  unfolding redact_at IsMarked redact_in
  redact_at-keeps [] name [] v e = subst (λ w. redact_at name [] w ≡ secret) (sym e) refl
  redact_at-keeps [] name (field ∷ rest) v e =
      subst (λ w. redact_at name (field ∷ rest) w ≡ secret) (sym e) refl
  redact_at-keeps (other ∷ path) name [] v h =
      redact_in-keeps name (λ w. secret) other (IsMarked path)
        (λ w e. secret-IsMarked path secret refl) v h
  redact_at-keeps (other ∷ path) name (field ∷ rest) v h =
      redact_in-keeps name (redact_at field rest) other (IsMarked path)
        (redact_at-keeps path field rest) v h

  redact_value-keeps :
      (path : List String) (paths : List (List String)) (v : Value F)
      → IsMarked path v
      → IsMarked path (redact_value v paths)
  unfolding redact_value
  redact_value-keeps path [] v h = h
  redact_value-keeps path ([] ∷ paths) v h = secret-IsMarked path secret refl
  redact_value-keeps path ((name ∷ rest) ∷ paths) v h =
      redact_value-keeps path paths (redact_at name rest v) (redact_at-keeps path name rest v h)

  secret-AreMarked :
      (paths : List (List String)) (v : Value F) → v ≡ secret → All (λ path. IsMarked path v) paths
  secret-AreMarked [] v e = tt
  secret-AreMarked (path ∷ paths) v e = (secret-IsMarked path v e, secret-AreMarked paths v e)

  -- What a report shows of a value has the marker at every place that a listed path leads to, in each element
  -- of a list on the way, whatever the other paths and in whatever order they are listed.
  pub redact_value-AreMarked :
      (v : Value F) (paths : List (List String))
      → All (λ path. IsMarked path (redact_value v paths)) paths
  unfolding redact_value
  redact_value-AreMarked v [] = tt
  redact_value-AreMarked v ([] ∷ paths) =
      (secret-IsMarked [] secret refl, secret-AreMarked paths secret refl)
  redact_value-AreMarked v ((name ∷ rest) ∷ paths) = (
    redact_value-keeps (name ∷ rest) paths (redact_at name rest v) (redact_at-IsMarked name rest v),
    redact_value-AreMarked (redact_at name rest v) paths,
  )
