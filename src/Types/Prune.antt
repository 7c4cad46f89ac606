-- ===== src/Types/Prune.antt =====
-- Pruning leaves a conforming value as it is, and makes what `assignable_trimmed` admits conform.
use mathlib.Core.Path.{subst}
use wilanis_js.Common.{
  String, Bool, ◌≡◌, refl, ap, sym, ◌∙◌, eq_iff, true, false, Option, none, some, Bool-cases,
}
use wilanis_js.Common.{ℕ, suc, inl, inr, arith, first-none, ◌==◌, includes}
use wilanis_js.Types.{
  Value, null, bool, num, str, arr, obj, Items, nil, cons, Members, member?, keys, items,
}
use wilanis_js.Types.{Ty, list, object, Floats}
use wilanis_js.Types.{Fields, bare, field, Open, closed, open_to, declares, IsProper, IsProperItems}
use wilanis_js.Types.Conform.{Problem, problem_of, problem_of_fields, problem_of_extras}
use wilanis_js.Types.Conform.{problem_of_items, problem_of_field, prune, prune_entry, map_items}
use wilanis_js.Types.Entries.{prune_entry-here, prune_entry-later, Within-self, filter_members-id}
use wilanis_js.Types.FieldSound.{no_extra_key}
use wilanis_js.Types.Judged.{problem_of_fields-head}
use wilanis_js.Types.Lookup.{includes-keys}

module _ {F : Type 0} where
  map_items-id :
      (f : Value F → Value F) (judge : Value F → Option Problem) (index : ℕ) (vs : Items F)
      → ((v : Value F) → IsProper v → judge v ≡ none → f v ≡ v)
      → IsProperItems vs
      → problem_of_items judge index (items vs) ≡ none
      → map_items f vs ≡ vs
  unfolding map_items problem_of_items
  map_items-id f judge index nil all p h = refl
  map_items-id f judge index (cons v vs) all p h =
      ground (arith, all v p.0, map_items-id f judge (suc index) vs all p.1)

module _ {F : Type 0} ⦃fl : Floats F⦄ where
  -- A closed object that conforms has no key beyond the declared ones.
  left_open :
      (m : Members F) (fields : Fields) (rest : Open) (key : String)
      → problem_of_extras m fields rest ≡ none
      → includes (keys m) key ≡ true
      → declares fields key ≡ false
      → (t : Ty) × (rest ≡ open_to t)
  left_open m fields closed key h i d = cc (no_extra_key m fields key h i)
  left_open m fields (open_to t) key h i d = (t, refl)

  here_conforms :
      (m : Members F) (name key : String) (t : Ty) (required : Bool) (v : Value F)
      → name == key ≡ true
      → member? key m ≡ some v
      → problem_of_field (λ w. problem_of w t) (member? name m) required ≡ none
      → problem_of v t ≡ none
  unfolding problem_of_field
  here_conforms m name key t required v same e h =
      rw (subst (λ k. member? k m ≡ some v) (sym ((eq_iff name key).0 same)) e) at h

  mutual
    unfolding prune problem_of

    prune_id : (t : Ty) (v : Value F) → IsProper v → problem_of v t ≡ none → prune v t ≡ v
    prune_id (list of max empty) (arr vs) p h = ap arr (
        map_items-id (λ v. prune v of) (λ v. problem_of v of) 0 vs (prune_id of) p
          (first-none _ _ h).1)
    prune_id (object name fields rest) (obj m) p h =
        let conform = first-none _ _ h in
        ap obj (
          filter_members-id (λ key v. prune_entry key v rest fields) m m (Within-self m p)
            λ key v e q.
              prune_entry_id fields key v rest m e q conform.0
                (left_open m fields rest key conform.1 (includes-keys key m v e)))
    prune_id t null p h = refl
    prune_id t (bool b) p h = refl
    prune_id t (num n) p h = refl
    prune_id t (str s) p h = refl
    prune_id t v p h = refl

    prune_entry_id :
        (fields : Fields) (key : String) (v : Value F) (rest : Open) (m : Members F)
        → member? key m ≡ some v
        → IsProper v
        → problem_of_fields m fields ≡ none
        → (declares fields key ≡ false → (t : Ty) × (rest ≡ open_to t))
        → prune_entry key v rest fields ≡ some v
    prune_entry_id bare key v rest m e p h o = rw (o refl).1 refl
    prune_entry_id (field name t required marks fields) key v rest m e p h o =
        elim (Bool-cases (name == key)) [
          | inl same ↦
              prune_entry-here key name v rest t required marks fields same
              ∙ (ap {B = Option (Value F)} some (
                  prune_id t v p (
                    here_conforms m name key t required v same e
                      (problem_of_fields-head m name t required marks fields h))))
          | inr other ↦
              prune_entry-later key name v rest t required marks fields other
              ∙ (prune_entry_id fields key v rest m e p (first-none _ _ h).1 (rw other at o))
        ]

  -- A value with no key twice that conforms to a type is what pruning it to that type answers.
  pub prune-conforming : (v : Value F) (t : Ty) → IsProper v → problem_of v t ≡ none → prune v t ≡ v
  prune-conforming v t p h = prune_id t v p h

  pub prune-conforms :
      (v : Value F) (t : Ty) → IsProper v → problem_of v t ≡ none → problem_of (prune v t) t ≡ none
  prune-conforms v t p h = subst (λ w. problem_of w t ≡ none) (sym (prune-conforming v t p h)) h
