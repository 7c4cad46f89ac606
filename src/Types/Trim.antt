-- ===== src/Types/Trim.antt =====
-- What `assignable_trimmed` admits conforms once it is pruned.
use mathlib.Core.Path.{subst}
use wilanis_js.Common.{Bool, ◌≡◌, refl, true, false, none, some, Bool-cases}
use wilanis_js.Common.{inl, inr, first-none, first-both}
use wilanis_js.Types.{Value, arr, obj, Members, member?, keys}
use wilanis_js.Types.{
  Ty, string, number, boolean, blob, unknown, list, object, var, type_ref, Floats,
}
use wilanis_js.Types.{Fields, bare, field, Open, closed, open_to}
use wilanis_js.Types.{IsProper, IsProperMembers, IsDistinct, IsDistinctFields}
use wilanis_js.Types.{
  IsKnown, IsKnownFields, IsKnownOpen, IsUnbounded, IsUnboundedFields, IsUnboundedOpen,
}
use wilanis_js.Types.Lookup.{member?-IsProper}
use wilanis_js.Types.Assign.{fits, fits_fields, fits_rest, assignable_trimmed}
use wilanis_js.Types.Conform.{problem_of, problem_of_fields, problem_of_extras, undeclared_here}
use wilanis_js.Types.Conform.{prune}
use wilanis_js.Types.Judged.{problem_of_keys-none}
use wilanis_js.Types.Entries.{keys-member?}
use wilanis_js.Types.FieldSound.{string_sound, field_sound, open_extras_sound}
use wilanis_js.Types.Sound.{sound, map-none, list_judged, open_extras-none}
use wilanis_js.Types.Prune.{prune-conforms}
use wilanis_js.Types.Pruned.{
  Agrees, Agrees-self, pruned, prune_scalar, member?-pruned, problem_of_items-map,
}
use wilanis_js.Types.Pruned.{problem_of_field-map, kept_undeclared, none_undeclared}

module _ (is_same : Ty → Ty → Bool) (one_object : (a b : Ty) → is_same a b ≡ true → a ≡ b) where
  module _ {F : Type 0} ⦃fl : Floats F⦄ where
    trimmed_rest :
        (rest : Open) (fields : Fields) (from to : Ty) (given : Fields) (from_open : Open)
        (m : Members F)
        → IsUnboundedOpen rest
        → IsKnownFields given
        → IsKnownOpen from_open
        → IsProperMembers m
        → fits_rest is_same true from given from_open to fields rest ≡ none
        → problem_of_fields m given ≡ none
        → problem_of_extras m given from_open ≡ none
        → problem_of_extras (pruned rest fields m) fields rest ≡ none
    unfolding fits problem_of
    trimmed_rest closed fields from to given from_open m x kf ko p h conform extras =
        problem_of_keys-none (λ k. some undeclared_here) fields (keys (pruned closed fields m))
          λ name i d.
            let (v, e) = keys-member? name (pruned closed fields m) i in
            absurd (none_undeclared fields m name v p d e)
    trimmed_rest (open_to unknown) fields from to given from_open m x kf ko p h conform extras =
        open_extras-none (pruned (open_to unknown) fields m) fields unknown (λ name v e d. refl)
    trimmed_rest (open_to t) fields from to given from_open m x kf ko p h conform extras =
        open_extras-none (pruned (open_to t) fields m) fields t λ name v e d.
          open_extras_sound (λ u. fits is_same false u t) t m given fields from_open
            (λ u known ok w. sound is_same one_object t u x known ok w) kf ko conform extras h name
            v (kept_undeclared t fields m name v p d e) d

    mutual
      unfolding fits problem_of prune

      trimmed :
          (to : Ty) (from : Ty)
          → IsUnbounded to
          → IsDistinct to
          → IsKnown from
          → fits is_same true from to ≡ none
          → (v : Value F) → IsProper v
          → problem_of v from ≡ none
          → problem_of (prune v to) to ≡ none
      trimmed unknown from x d k h v p c = refl
      trimmed (var name) from x d k h v p c = refl
      trimmed type_ref from x d k h v p c = absurd x
      trimmed to (var name) x d k h v p c = absurd k
      trimmed (string wanted) (string given) x d k h v p c =
          rw prune_scalar (string_sound v given wanted h c)
      trimmed (list of max empty) (list given given_max given_empty) x d k h (arr vs) p c = rw x.0 (
          problem_of_items-map (λ v. prune v of) (λ v. problem_of v given) (λ v. problem_of v of) 0
            vs (trimmed of given x.1 d k.1 (list_judged given_empty empty _ _ k.0 h)) p
            (first-none _ _ c).1)
      trimmed (object name fields rest) (object from_name given from_open) x d k h (obj m) p c =
          elim (Bool-cases (is_same (object from_name given from_open) (object name fields rest))) [
            | inl same ↦
                prune-conforms (obj m) (object name fields rest) p
                  (subst (λ t. problem_of (obj m) t ≡ none) (one_object _ _ same) c)
            | inr other ↦
                let judged = first-none _ _ (rw other at h) in
                let conform = first-none _ _ c in
                first-both _ _
                  (trimmed_fields fields fields rest given from_open m x.0 d.0
                    (Agrees-self fields d.0) k.0 k.1 p judged.0 conform.0 conform.1)
                  (trimmed_rest rest fields (object from_name given from_open)
                    (object name fields rest) given from_open m x.1 k.0 k.1 p judged.1 conform.0
                    conform.1)
          ]
      trimmed number number x d k h v p c = prune-conforms v number p c
      trimmed boolean boolean x d k h v p c = prune-conforms v boolean p c
      trimmed blob blob x d k h v p c = prune-conforms v blob p c
      trimmed to from x d k h v p c = cc

      trimmed_fields :
          (fields whole : Fields) (rest : Open) (given : Fields) (from_open : Open) (m : Members F)
          → IsUnboundedFields fields
          → IsDistinctFields fields
          → Agrees fields whole
          → IsKnownFields given
          → IsKnownOpen from_open
          → IsProperMembers m
          → fits_fields is_same true given from_open fields ≡ none
          → problem_of_fields m given ≡ none
          → problem_of_extras m given from_open ≡ none
          → problem_of_fields (pruned rest whole m) fields ≡ none
      trimmed_fields bare whole rest given from_open m x d a kf ko p h conform extras = refl
      trimmed_fields (field name t required marks more) whole rest given from_open m x d a kf ko p h
            conform extras =
          let judged = first-none _ _ h in
          first-both _ _
            (map-none _ _ (
              rw (member?-pruned rest whole m name (record { type = t; required = required }) p a.0)
                (problem_of_field-map (λ v. problem_of v t) (λ v. prune v t) (member? name m)
                  required
                  (field_sound (λ u. fits is_same true u t) (λ v. problem_of (prune v t) t) m given
                    from_open name required
                    (λ u known ok v e.
                      trimmed t u x.0 d.1 known ok v (member?-IsProper name m v p e))
                    kf ko conform extras judged.0))))
            (trimmed_fields more whole rest given from_open m x.1 d.2 a.1 kf ko p judged.1 conform
              extras)

  -- Where `from` is assignable to `to` once trimmed, pruning a value that conforms to `from` gives
  -- one that conforms to `to`: for a `from` with no variable, no literal `[]` and no field named by the
  -- empty text, a `to` that bounds no list, takes no type reference and names no field twice, and a
  -- value with no key twice.
  pub assignable_trimmed-prune :
      {F : Type 0} ⦃fl : Floats F⦄ (from to : Ty) (v : Value F)
      → IsKnown from
      → IsUnbounded to
      → IsDistinct to
      → IsProper v
      → assignable_trimmed is_same from to ≡ none
      → problem_of v from ≡ none
      → problem_of (prune v to) to ≡ none
  unfolding assignable_trimmed
  assignable_trimmed-prune from to v k x d p h c = trimmed to from x d k h v p c
