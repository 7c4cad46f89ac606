-- ===== src/Kernel/Redact/Marked.antt =====
-- packages/engine/src/redact.ts: what is under a field of a value, and what writing under a field does to it.
use wilanis_js.Common.{String, List, [], ◌∷◌, ◌==◌, ◌≡◌, Bool-cases, inl, inr}
use wilanis_js.Common.{if◌then◌else◌}
use wilanis_js.Types.{Value, null, bool, num, str, arr, obj, Items, nil, cons, Members, end, member}
use wilanis_js.Kernel.Redact.{secret, redact_in, redact_elements, replace_field}

module _ {F : Type 0} where
  -- What is under a field of a value, in each element where the value is a list, is as `P` says.
  unfoldable mutual
    pub AtEach : String → (Value F → Type 0) → Value F → Type 0
    AtEach name P (arr vs) = AtElements name P vs
    AtEach name P (obj m) = AtField name P m
    AtEach name P null = Unit
    AtEach name P (bool b) = Unit
    AtEach name P (num n) = Unit
    AtEach name P (str s) = Unit

    pub AtElements : String → (Value F → Type 0) → Items F → Type 0
    AtElements name P nil = Unit
    AtElements name P (cons v vs) = AtEach name P v × AtElements name P vs

    pub AtField : String → (Value F → Type 0) → Members F → Type 0
    AtField name P end = Unit
    AtField name P (member key v m) =
        let later = AtField name P m in if key == name then P v else later

  -- Wherever the path leads, the value is the marker.
  unfoldable pub IsMarked : List String → Value F → Type 0
  unfolding AtEach
  IsMarked [] v = v ≡ secret
  IsMarked (name ∷ rest) v = AtEach name (IsMarked rest) v

  module _ (name : String) (f : Value F → Value F) (P : Value F → Type 0) where
    -- Writing under a field makes what is there as `P` says.
    mutual
      unfolding AtEach redact_in

      pub redact_in-AtEach :
          ((w : Value F) → P (f w)) → (v : Value F) → AtEach name P (redact_in name f v)
      redact_in-AtEach h (arr vs) = redact_elements-AtElements h vs
      redact_in-AtEach h (obj m) = replace_field-AtField h m
      redact_in-AtEach h null = tt
      redact_in-AtEach h (bool b) = tt
      redact_in-AtEach h (num n) = tt
      redact_in-AtEach h (str s) = tt

      redact_elements-AtElements :
          ((w : Value F) → P (f w)) → (vs : Items F) → AtElements name P (redact_elements name f vs)
      redact_elements-AtElements h nil = tt
      redact_elements-AtElements h (cons v vs) =
          (redact_in-AtEach h v, redact_elements-AtElements h vs)

      replace_field-AtField :
          ((w : Value F) → P (f w)) → (m : Members F) → AtField name P (replace_field name f m)
      replace_field-AtField h end = tt
      replace_field-AtField h (member key v m) = elim (Bool-cases (key == name)) [
        | inl e ↦ rw e (rw e (h v))
        | inr e ↦ rw e (rw e (replace_field-AtField h m))
      ]

  -- What is under any field stays as `Q` says where `f` keeps it so.
  module _ (name : String) (f : Value F → Value F) (other : String) (Q : Value F → Type 0) where
    mutual
      unfolding AtEach redact_in

      pub redact_in-keeps :
          ((w : Value F) → Q w → Q (f w))
          → (v : Value F) → AtEach other Q v
          → AtEach other Q (redact_in name f v)
      redact_in-keeps h (arr vs) at = redact_elements-keeps h vs at
      redact_in-keeps h (obj m) at = replace_field-keeps h m at
      redact_in-keeps h null at = tt
      redact_in-keeps h (bool b) at = tt
      redact_in-keeps h (num n) at = tt
      redact_in-keeps h (str s) at = tt

      redact_elements-keeps :
          ((w : Value F) → Q w → Q (f w))
          → (vs : Items F) → AtElements other Q vs
          → AtElements other Q (redact_elements name f vs)
      redact_elements-keeps h nil at = tt
      redact_elements-keeps h (cons v vs) (here, later) =
          (redact_in-keeps h v here, redact_elements-keeps h vs later)

      replace_field-keeps :
          ((w : Value F) → Q w → Q (f w))
          → (m : Members F) → AtField other Q m
          → AtField other Q (replace_field name f m)
      replace_field-keeps h end at = tt
      replace_field-keeps h (member key v m) at = elim (Bool-cases (key == name)) [
        | inl e ↦ elim (Bool-cases (key == other)) [
          | inl e' ↦ rw (e, e') (h v (rw e' at at))
          | inr e' ↦ rw (e, e') (rw e' at at)
        ]
        | inr e ↦ elim (Bool-cases (key == other)) [
          | inl e' ↦ rw (e, e') (rw e' at at)
          | inr e' ↦ rw (e, e') (replace_field-keeps h m (rw e' at at))
        ]
      ]
