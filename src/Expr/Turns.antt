-- ===== src/Expr/Turns.antt =====
-- One turn of a read of a value against the same turn of a read of its type: what `readInto` answers
-- holds of what the loop of `readValue` finds.
use mathlib.Core.Path.{subst}
use mathlib.Core.Option.{some-injective}
use wilanis_js.Common.{ℕ, zero, suc, String, Bool, true, false, not, ◌≡◌, refl, Option, none, some}
use wilanis_js.Common.{List, [], ◌∷◌, ◌||◌, arith, get_elem?, Option-cases, inl, inr}
use wilanis_js.Common.{first-none, ◌⊎◌, if◌then◌else◌}
use wilanis_js.Types.{Value, arr, obj, Members, member?, keys, items, Floats}
use wilanis_js.Types.{Ty, string, number, boolean, blob, unknown, list, object, var, type_ref}
use wilanis_js.Types.{Fields, bare, field, Open, closed, open_to, ObjField, field?, declares}
use wilanis_js.Types.Conform.{
  Problem, problem_of, problem_of_items, problem_of_fields, problem_of_extras, judge_key,
  problem_of_field, problem_of_list,
}
use wilanis_js.Types.Judged.{problem_of_fields-at, problem_of_keys-at}
use wilanis_js.Types.Lookup.{includes-keys}
use wilanis_js.Types.TypeAt.{
  Read, ReadResult, read, misread, read_into, is_index, read_field, Misread,
}
use wilanis_js.Expr.BlobFree.{IsBlobFree, field?-IsBlobFree}
use wilanis_js.Expr.{Coercions, read_segment, is_there}

field?-none-declares :
    (fields : Fields) (name : String) → field? name fields ≡ none → declares fields name ≡ false
field?-none-declares bare name h = refl
field?-none-declares (field key t required marks rest) name h =
    ground (arith, field?-none-declares rest name)

pub read-injective : (a r : Read) → read a ≡ read r → a ≡ r
read-injective a r h = cc

chosen :
    (c : Bool) (a r : Read) (why : Misread) → (if c then read a else misread why) ≡ read r → a ≡ r
chosen true a r why h = cc
chosen false a r why h = cc

pub ReadResult-cases :
    (o : ReadResult) → ((r : Read) × (o ≡ read r)) ⊎ ((why : Misread) × (o ≡ misread why))
ReadResult-cases (read r) = inl (r, refl)
ReadResult-cases (misread why) = inr (why, refl)

module _ {F : Type 0} ⦃fl : Floats F⦄ ⦃js : Coercions F⦄ where
  -- What is read so far is as typed: it conforms where it is there, and it is unless optional.
  abbrev pub Fits : Option (Value F) → Ty → Bool → Type 0
  Fits current t optional =
      ((w : Value F) → current ≡ some w → problem_of w t ≡ none)
      × (optional ≡ false → is_there current ≡ true)

  -- What a read makes of a value that is as typed.
  abbrev pub Carried : Option (Value F) → Ty → Bool → Option (Value F) → Read → Type 0
  Carried current t optional reached r =
      (Fits current t optional → Fits reached r.type r.optional) × IsBlobFree r.type

  item-conforms :
      (judge : Value F → Option Problem) (index i : ℕ) (vs : List (Value F)) (w : Value F)
      → problem_of_items judge index vs ≡ none
      → get_elem? vs i ≡ some w
      → judge w ≡ none
  unfolding problem_of_items
  item-conforms judge index i [] w h e = cc
  item-conforms judge index zero (v ∷ vs) w h e =
      let same : v ≡ w = some-injective v w e in subst (λ u. judge u ≡ none) same (ground arith)
  item-conforms judge index (suc i) (v ∷ vs) w h e =
      item-conforms judge (suc index) i vs w (ground arith) e

  field-conforms :
      (m : Members F) (fields : Fields) (segment : String) (f : ObjField) (w : Value F)
      → problem_of_fields m fields ≡ none
      → field? segment fields ≡ some f
      → member? segment m ≡ some w
      → problem_of w f.type ≡ none
  unfolding problem_of_field
  field-conforms m fields segment f w h e found =
      let judged = problem_of_fields-at m fields segment f h e in rw found at judged

  field-there :
      (m : Members F) (fields : Fields) (segment : String) (f : ObjField)
      → problem_of_fields m fields ≡ none
      → field? segment fields ≡ some f
      → f.required ≡ true
      → is_there (member? segment m) ≡ true
  unfolding problem_of_field is_there
  field-there m fields segment f h e required =
      let judged = problem_of_fields-at m fields segment f h e in
      elim (Option-cases (member? segment m)) [
        | inl missing ↦ let refused = rw (missing, required) at judged in cc
        | inr (w, found) ↦ rw found refl
      ]

  extra-conforms :
      (m : Members F) (fields : Fields) (t : Ty) (segment : String) (w : Value F)
      → problem_of_extras m fields (open_to t) ≡ none
      → field? segment fields ≡ none
      → member? segment m ≡ some w
      → problem_of w t ≡ none
  unfolding problem_of judge_key
  extra-conforms m fields t segment w h e found =
      let judged =
        problem_of_keys-at (judge_key (λ v. problem_of v t) m) fields (keys m) segment h
          (includes-keys segment m w found) (field?-none-declares fields segment e) in
      rw (judge_key, found) at judged

  -- One turn of a read inside a list.
  list-Fits :
      (current : Option (Value F)) (of : Ty) (max : Option ℕ) (empty : Bool) (segment : String)
      → ((v : Value F) → current ≡ some v → problem_of v (list of max empty) ≡ none)
      → Fits (read_segment current segment) of true
  unfolding read_segment problem_of problem_of_list
  list-Fits (some (arr vs)) of max empty segment fit =
      let (_, judged) = first-none _ _ (fit (arr vs) refl) in
      (
        λ w found. elim (Option-cases (js.index_of segment)) [
          | inl missing ↦ let nothing = rw (read_segment, missing) at found in cc
          | inr (i, there) ↦
              item-conforms (λ u. problem_of u of) 0 i (items vs) w judged
                (rw (read_segment, there) at found)
        ],
        λ e. cc,
      )
  list-Fits (some (obj m)) of max empty segment fit = let wrong = fit (obj m) refl in cc
  list-Fits current of max empty segment fit = (λ w found. cc, λ e. cc)

  -- One turn of a read at a declared field.
  declared-Fits :
      (current : Option (Value F)) (name : Option String) (fields : Fields) (rest : Open)
      (optional : Bool) (segment : String) (f : ObjField)
      → Fits current (object name fields rest) optional
      → field? segment fields ≡ some f
      → Fits (read_segment current segment) f.type (optional || not f.required)
  unfolding read_segment problem_of is_there
  declared-Fits (some (obj m)) name fields rest optional segment f fit e =
      let (judged, _) = first-none _ _ (fit.0 (obj m) refl) in
      (
        λ w found. field-conforms m fields segment f w judged e found,
        λ sure. field-there m fields segment f judged e (ground arith),
      )
  declared-Fits none name fields rest optional segment f fit e =
      (λ w found. cc, λ sure. fit.1 (ground arith))
  declared-Fits (some v) name fields rest optional segment f fit e =
      let wrong = fit.0 v refl in (λ w found. cc, λ sure. cc)

  -- One turn of a read at a key that only what the object is open to admits.
  extra-Fits :
      (current : Option (Value F)) (name : Option String) (fields : Fields) (t : Ty)
      (optional : Bool) (segment : String)
      → Fits current (object name fields (open_to t)) optional
      → field? segment fields ≡ none
      → Fits (read_segment current segment) t true
  unfolding read_segment problem_of
  extra-Fits (some (obj m)) name fields t optional segment fit e =
      let (_, judged) = first-none _ _ (fit.0 (obj m) refl) in
      (λ w found. extra-conforms m fields t segment w judged e found, λ sure. cc)
  extra-Fits none name fields t optional segment fit e = (λ w found. cc, λ sure. cc)
  extra-Fits (some v) name fields t optional segment fit e =
      let wrong = fit.0 v refl in (λ w found. cc, λ sure. cc)

  object-Fits :
      (current : Option (Value F)) (name : Option String) (fields : Fields) (rest : Open)
      (optional : Bool) (segment : String) (r : Read) (declared : Option ObjField)
      → IsBlobFree (object name fields rest)
      → field? segment fields ≡ declared
      → read_field declared rest optional segment (object name fields rest) ≡ read r
      → Carried current (object name fields rest) optional (read_segment current segment) r
  unfolding read_field
  object-Fits current name fields rest optional segment r (some f) b e h =
      subst
        (λ s. Carried current (object name fields rest) optional (read_segment current segment) s)
        (read-injective _ r h)
        (
          λ fit. declared-Fits current name fields rest optional segment f fit e,
          field?-IsBlobFree fields segment f b.0 e,
        )
  object-Fits current name fields (open_to t) optional segment r none b e h =
      subst
        (λ s.
          Carried current (object name fields (open_to t)) optional (read_segment current segment)
            s)
        (read-injective _ r h) (λ fit. extra-Fits current name fields t optional segment fit e, b.1)
  object-Fits current name fields closed optional segment r none b e h = cc

  pub step-Fits :
      (current : Option (Value F)) (t : Ty) (optional : Bool) (segment : String) (r : Read)
      → IsBlobFree t
      → read_into t optional segment ≡ read r
      → Carried current t optional (read_segment current segment) r
  unfolding read_into
  step-Fits current (string enum) optional segment r b h = cc
  step-Fits current blob optional segment r b h = elim b [ ]
  step-Fits current number optional segment r b h = cc
  step-Fits current boolean optional segment r b h = cc
  step-Fits current unknown optional segment r b h = cc
  step-Fits current (var name) optional segment r b h = cc
  step-Fits current type_ref optional segment r b h = cc
  step-Fits current (list of max empty) optional segment r b h =
      subst (λ s. Carried current (list of max empty) optional (read_segment current segment) s)
        (chosen (is_index segment) _ r _ h) (λ fit. list-Fits current of max empty segment fit.0, b)
  step-Fits current (object name fields rest) optional segment r b h =
      object-Fits current name fields rest optional segment r (field? segment fields) b refl h
