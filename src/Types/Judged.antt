-- ===== src/Types/Judged.antt =====
-- The loops of the conformance check, read back as facts about each item and each key.
use mathlib.Core.Option.{some-injective}
use mathlib.Core.Path.{subst, subst₂}
use wilanis_js.Common.{
  ℕ, suc, String, ◌≡◌, refl, true, false, Bool, Option, none, some, List, [], ◌∷◌,
}
use wilanis_js.Common.{◌==◌, eq_iff, Bool-cases, inl, inr, arith, includes}
use wilanis_js.Types.{Value, Members, member?, Fields, bare, field, ObjField, field?, declares}
use wilanis_js.Types.{Floats, Ty, Marks}
use wilanis_js.Types.Conform.{Problem, problem_of_items, problem_of_keys}
use wilanis_js.Types.Conform.{problem_of_field, problem_of_fields, problem_of}

module _ {F : Type 0} where
  pub problem_of_items_mono :
      (judge judge' : Value F → Option Problem)
      → ((v : Value F) → judge v ≡ none → judge' v ≡ none)
      → (index : ℕ) (vs : List (Value F)) → problem_of_items judge index vs ≡ none
      → problem_of_items judge' index vs ≡ none
  unfolding problem_of_items
  problem_of_items_mono judge judge' mono index [] h = refl
  problem_of_items_mono judge judge' mono index (v ∷ vs) h =
      ground (arith, mono v, problem_of_items_mono judge judge' mono (suc index) vs)

includes-cons :
    (k x : String) (xs : List String) → includes xs k ≡ true → includes (x ∷ xs) k ≡ true
includes-cons k x xs h = ground arith

includes-head : (x : String) (xs : List String) → includes (x ∷ xs) x ≡ true
includes-head x xs = ground (arith, eq_iff x x)

problem_of_keys-head :
    (judge : String → Option Problem) (fields : Fields) (n : String) (names : List String)
    → problem_of_keys judge fields (n ∷ names) ≡ none
    → declares fields n ≡ false
    → judge n ≡ none
unfolding problem_of_keys
problem_of_keys-head judge fields n names h d = ground arith

-- Every undeclared key among `names` is judged to have no problem.
pub problem_of_keys-at :
    (judge : String → Option Problem) (fields : Fields) (names : List String) (name : String)
    → problem_of_keys judge fields names ≡ none
    → includes names name ≡ true
    → declares fields name ≡ false
    → judge name ≡ none
unfolding problem_of_keys
problem_of_keys-at judge fields [] name h i d = cc
problem_of_keys-at judge fields (n ∷ names) name h i d = elim (Bool-cases (n == name)) [
  | inl e ↦
      let same : n ≡ name = (eq_iff n name).0 e in
      subst (λ k. judge k ≡ none) same (problem_of_keys-head judge fields n names h (rw same d))
  | inr e ↦ problem_of_keys-at judge fields names name (ground arith) (rw e at i) d
]

pub problem_of_keys-none :
    (judge : String → Option Problem) (fields : Fields) (names : List String)
    → ((name : String)
        → includes names name ≡ true
        → declares fields name ≡ false
        → judge name ≡ none)
    → problem_of_keys judge fields names ≡ none
unfolding problem_of_keys
problem_of_keys-none judge fields [] all = refl
problem_of_keys-none judge fields (n ∷ names) all =
    let later =
      problem_of_keys-none judge fields names (λ k i d. all k (includes-cons k n names i) d) in
    ground (arith, all n (includes-head n names))

module _ {F : Type 0} ⦃fl : Floats F⦄ where
  pub problem_of_fields-head :
      (m : Members F) (key : String) (t : Ty) (required : Bool) (marks : Marks) (rest : Fields)
      → problem_of_fields m (field key t required marks rest) ≡ none
      → problem_of_field (λ v. problem_of v t) (member? key m) required ≡ none
  unfolding problem_of
  problem_of_fields-head m key t required marks rest h = ground arith

  -- A declared field of a conforming object: what is under its name conforms to its type.
  pub problem_of_fields-at :
      (m : Members F) (fields : Fields) (name : String) (f : ObjField)
      → problem_of_fields m fields ≡ none
      → field? name fields ≡ some f
      → problem_of_field (λ v. problem_of v f.type) (member? name m) f.required ≡ none
  unfolding problem_of
  problem_of_fields-at m bare name f h e = cc
  problem_of_fields-at m (field key t required marks rest) name f h e =
      elim (Bool-cases (key == name)) [
        | inl same ↦
            let same_key : key ≡ name = (eq_iff key name).0 same in
            subst₂
              (λ k g. problem_of_field (λ v. problem_of v g.type) (member? k m) g.required ≡ none)
              same_key (some-injective (record { type = t; required = required }) f (rw same at e))
              (problem_of_fields-head m key t required marks rest h)
        | inr other ↦ problem_of_fields-at m rest name f (ground arith) (rw other at e)
      ]
