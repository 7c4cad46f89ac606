-- ===== src/Types/Sound.antt =====
-- Assignability is sound for the run-time conformance check, in both its readings.
use mathlib.Core.Option
use mathlib.Core.Path.{subst}
use wilanis_js.Common.{
  String, Bool, ◌≡◌, refl, true, false, Option, none, some, Bool-cases, Option-cases, if◌then◌else◌,
  inl, inr, arith, ℕ, first-none, first-both,
}
use wilanis_js.Types.{Value, null, bool, num, str, arr, obj, Members, member?, keys, items, Floats}
use wilanis_js.Types.{Ty, string, number, boolean, blob, unknown, list, object, var, type_ref}
use wilanis_js.Types.{Fields, bare, field, Open, closed, open_to, declares}
use wilanis_js.Types.{
  IsKnown, IsKnownFields, IsKnownOpen, IsUnbounded, IsUnboundedFields, IsUnboundedOpen,
}
use wilanis_js.Types.Assign.{fits, fits_fields, fits_rest, assignable}
use wilanis_js.Types.Conform.{
  Problem, problem_of, problem_of_fields, problem_of_extras, problem_of_list,
}
use wilanis_js.Types.Conform.{judge_key}
use wilanis_js.Types.Judged.{problem_of_items_mono, problem_of_keys-none}
use wilanis_js.Types.FieldSound.{string_sound, field_sound, closed_extras_sound, open_extras_sound}

pub list_judged :
    {A : Type 0} (given_empty empty : Bool) (refused : A) (inner : Option A)
    → given_empty ≡ false
    → (if given_empty then none else if empty then some refused else inner) ≡ none
    → inner ≡ none
list_judged given_empty empty refused inner e h = ground arith

pub map-none : {A B : Type 0} (f : A → B) (o : Option A) → o ≡ none → Option.map f o ≡ none
map-none f none h = refl
map-none f (some a) h = cc

module _ {F : Type 0} where
  pub judge_key-none :
      (judge : Value F → Option Problem) (m : Members F) (name : String)
      → ((v : Value F) → member? name m ≡ some v → judge v ≡ none)
      → judge_key judge m name ≡ none
  unfolding judge_key
  judge_key-none judge m name all = elim (Option-cases (member? name m)) [
    | inl missing ↦ rw (missing, judge_key)
    | inr (v, e) ↦ rw (e, judge_key) (all v e)
  ]

  list_sound :
      (judge judge' : Value F → Option Problem) (v : Value F) (max : Option ℕ)
      → ((w : Value F) → judge w ≡ none → judge' w ≡ none)
      → problem_of_list judge v max ≡ none
      → problem_of_list judge' v none ≡ none
  unfolding problem_of_list
  list_sound judge judge' (arr vs) max mono h =
      problem_of_items_mono judge judge' mono 0 (items vs) (first-none _ _ h).1
  list_sound judge judge' null max mono h = cc
  list_sound judge judge' (bool b) max mono h = cc
  list_sound judge judge' (num n) max mono h = cc
  list_sound judge judge' (str s) max mono h = cc
  list_sound judge judge' (obj m) max mono h = cc

module _ {F : Type 0} ⦃fl : Floats F⦄ where
  -- The keys that a type does not declare, judged one by one.
  pub open_extras-none :
      (m : Members F) (fields : Fields) (t : Ty)
      → ((name : String) (v : Value F)
          → member? name m ≡ some v
          → declares fields name ≡ false
          → problem_of v t ≡ none)
      → problem_of_extras m fields (open_to t) ≡ none
  unfolding problem_of
  open_extras-none m fields t all =
      problem_of_keys-none (judge_key (λ v. problem_of v t) m) fields (keys m)
        λ name i d. judge_key-none (λ v. problem_of v t) m name (λ v e. all name v e d)

-- `one_object` is what `===` on types gives: one object is one type.
module _ (is_same : Ty → Ty → Bool) (one_object : (a b : Ty) → is_same a b ≡ true → a ≡ b) where
  module _ {F : Type 0} ⦃fl : Floats F⦄ where
    mutual
      unfolding fits problem_of

      pub sound :
          (to : Ty) (from : Ty)
          → IsUnbounded to
          → IsKnown from
          → fits is_same false from to ≡ none
          → (v : Value F) → problem_of v from ≡ none
          → problem_of v to ≡ none
      sound unknown from x k h v c = refl
      sound (var name) from x k h v c = refl
      sound type_ref from x k h v c = absurd x
      sound to (var name) x k h v c = absurd k
      sound (string wanted) (string given) x k h v c = string_sound v given wanted h c
      sound (list of max empty) (list given given_max given_empty) x k h v c = rw x.0 (
          list_sound (λ w. problem_of w given) (λ w. problem_of w of) v given_max
            (sound of given x.1 k.1 (list_judged given_empty empty _ _ k.0 h)) c)
      sound (object name fields rest) (object from_name given from_open) x k h (obj m) c =
          elim (Bool-cases (is_same (object from_name given from_open) (object name fields rest))) [
            | inl same ↦ subst (λ t. problem_of (obj m) t ≡ none) (one_object _ _ same) c
            | inr other ↦
                let judged = first-none _ _ (rw other at h) in
                let conform = first-none _ _ c in
                first-both _ _
                  (sound_fields fields given from_open m x.0 k.0 k.1 judged.0 conform.0 conform.1)
                  (sound_rest rest fields (object from_name given from_open)
                    (object name fields rest) given from_open m x.1 k.0 k.1 judged.1 conform.0
                    conform.1)
          ]
      sound number number x k h v c = c
      sound boolean boolean x k h v c = c
      sound blob blob x k h v c = c
      sound to from x k h v c = cc

      sound_fields :
          (fields given : Fields) (from_open : Open) (m : Members F)
          → IsUnboundedFields fields
          → IsKnownFields given
          → IsKnownOpen from_open
          → fits_fields is_same false given from_open fields ≡ none
          → problem_of_fields m given ≡ none
          → problem_of_extras m given from_open ≡ none
          → problem_of_fields m fields ≡ none
      sound_fields bare given from_open m x kf ko h conform extras = refl
      sound_fields (field name t required marks rest) given from_open m x kf ko h conform extras =
          let judged = first-none _ _ h in
          first-both _ _
            (map-none _ _ (
              field_sound (λ u. fits is_same false u t) (λ v. problem_of v t) m given from_open name
                required (λ u known ok v e. sound t u x.0 known ok v) kf ko conform extras
                judged.0))
            (sound_fields rest given from_open m x.1 kf ko judged.1 conform extras)

      sound_rest :
          (rest : Open) (fields : Fields) (from to : Ty) (given : Fields) (from_open : Open)
          (m : Members F)
          → IsUnboundedOpen rest
          → IsKnownFields given
          → IsKnownOpen from_open
          → fits_rest is_same false from given from_open to fields rest ≡ none
          → problem_of_fields m given ≡ none
          → problem_of_extras m given from_open ≡ none
          → problem_of_extras m fields rest ≡ none
      sound_rest closed fields from to given from_open m x kf ko h conform extras =
          closed_extras_sound m from to given fields from_open kf extras h
      sound_rest (open_to unknown) fields from to given from_open m x kf ko h conform extras =
          open_extras-none m fields unknown (λ name v e d. refl)
      sound_rest (open_to t) fields from to given from_open m x kf ko h conform extras =
          open_extras-none m fields t (
            open_extras_sound (λ u. fits is_same false u t) t m given fields from_open
              (λ u known ok v. sound t u x known ok v) kf ko conform extras h)

  -- Where `from` is assignable to `to`, every value that conforms to `from` conforms to `to`: for a
  -- `from` with no variable, no literal `[]` and no field named by the empty text, and a `to` that
  -- bounds no list and takes no type reference.
  pub assignable-conforms :
      {F : Type 0} ⦃fl : Floats F⦄ (from to : Ty) (v : Value F)
      → IsKnown from
      → IsUnbounded to
      → assignable is_same from to ≡ none
      → problem_of v from ≡ none
      → problem_of v to ≡ none
  unfolding assignable
  assignable-conforms from to v k x h c = sound to from x k h v c
