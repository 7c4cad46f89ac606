-- ===== src/Storage/Alike.antt =====
-- packages/plugin-storage-memory/src/match.ts and engine.ts: two values being one, a row being within
-- a scope, and the rows that a write is compared with.
use mathlib.Core.Path.{subst}
use mathlib.Core.Option.{some-injective}
use wilanis_js.Common.{◌≡◌, refl, sym, String, Bool, true, false, not, ◌==◌}
use wilanis_js.Common.{
  Option, none, some, List, [], ◌∷◌, if◌then◌else◌, arith, eq_iff, every, some_of,
}
use wilanis_js.Common.{Bool-cases, inl, inr, All}
use wilanis_js.Common.Dict.{Dict, get, IsDistinct}
use wilanis_js.Types.{Value, null, bool, num, str, arr, obj}
use wilanis_js.Storage.{Spelling, Record, Scope, ScopeValue, text, number, Row, Rows, first_of}
use wilanis_js.Storage.Rows.{within, scope_column, same_scope_value, same_value, agrees, others}

pub eq_sym : (s t : String) → (s == t) ≡ (t == s)
eq_sym s t = ground (arith, eq_iff s t, eq_iff t s)

bool_sym : (b c : Bool) → (if b then c else not c) ≡ (if c then b else not b)
bool_sym true true = refl
bool_sym true false = refl
bool_sym false true = refl
bool_sym false false = refl

abbrev pub IsScope : {F : Type 0} → Option (Scope F) → Type 0
IsScope none = Unit
IsScope (some scope) = IsDistinct scope

get-later {ℓ} :
    {V : Type ℓ} (column c : String) (v w : V) (part : Dict V)
    → get column part ≡ none
    → get c part ≡ some w
    → get c ((column, v) ∷ part) ≡ some w
unfolding get
get-later column c v w part fresh h = elim (Bool-cases (column == c)) [
  | inr e ↦ rw e h
  | inl e ↦ let one : column ≡ c = (eq_iff column c).0 e in let nothing = rw one at fresh in cc
]

pub first_of-none {ℓ} :
    {A : Type ℓ} (test : A → Bool) (xs : List A)
    → first_of test xs ≡ none
    → All (λ x. test x ≡ false) xs
first_of-none test [] h = tt
first_of-none test (x ∷ xs) h = elim (Bool-cases (test x)) [
  | inl e ↦ let wrong = rw e at h in cc
  | inr e ↦ (e, first_of-none test xs (rw e at h))
]

module _ {F : Type 0} ⦃js : Spelling F⦄ where
  same_value-sym : (v w : Option (Value F)) → same_value v w ≡ same_value w v
  unfolding same_value
  same_value-sym none (some null) = refl
  same_value-sym (some null) (some null) = refl
  same_value-sym (some (bool b)) (some (bool c)) = bool_sym b c
  same_value-sym (some (num n)) (some (num m)) = js.same_number_sym n m
  same_value-sym (some (str s)) (some (str t)) = eq_sym s t
  same_value-sym (some (arr v)) (some (arr w)) = eq_sym (js.settled (arr v)) (js.settled (arr w))
  same_value-sym (some (arr v)) (some (obj w)) = eq_sym (js.settled (arr v)) (js.settled (obj w))
  same_value-sym (some (obj v)) (some (arr w)) = eq_sym (js.settled (obj v)) (js.settled (arr w))
  same_value-sym (some (obj v)) (some (obj w)) = eq_sym (js.settled (obj v)) (js.settled (obj w))
  same_value-sym v w = refl

  pub agrees-sym : (fields : List String) (a b : Record F) → agrees fields a b ≡ agrees fields b a
  unfolding agrees
  agrees-sym [] a b = refl
  agrees-sym (f ∷ fields) a b = rw (same_value-sym (get f a) (get f b), agrees-sym fields a b) refl

  same_scope_value_refl : (v : ScopeValue F) → same_scope_value (some v) v ≡ true
  unfolding same_scope_value
  same_scope_value_refl (text s) = (eq_iff s s).1 refl
  same_scope_value_refl (number n) = js.same_number_refl n

  -- Every column of a scope is found in it as written.
  every-column :
      (whole part : Scope F)
      → ((column : String) (v : ScopeValue F)
          → get column part ≡ some v
          → get column whole ≡ some v)
      → IsDistinct part
      → every (λ (column, value). same_scope_value (get column whole) value) part ≡ true
  unfolding get
  every-column whole [] sub d = refl
  every-column whole ((column, v) ∷ part) sub d =
      let found = sub column v (ground (arith, eq_iff column column)) in
      let one : same_scope_value (get column whole) v ≡ true = rw found (same_scope_value_refl v) in
      let later =
        every-column whole part (λ c w h. sub c w (get-later column c v w part d.0 h)) d.1 in
      ground arith

  pub within-own :
      (r : Row F) (scope : Option (Scope F))
      → r.scope ≡ scope
      → IsScope scope
      → within r scope ≡ true
  unfolding within scope_column
  within-own r none e d = refl
  within-own r (some scope) e d =
      subst (λ o. every (λ x. same_scope_value (scope_column o x.0) x.1) scope ≡ true) (sym e)
        (every-column scope scope (λ c v h. h) d)

  pub others-agree :
      (key : String) (scope : Option (Scope F)) (rows : Rows F) (test : Record F → Bool)
      (k : String) (found : Row F)
      → some_of test (others key scope rows) ≡ false
      → get k rows ≡ some found
      → (k == key) ≡ false
      → within found scope ≡ true
      → test found.record_ ≡ false
  unfolding others get
  others-agree key scope [] test k found h there other ours = cc
  others-agree key scope ((under, r) ∷ rest) test k found h there other ours =
      elim (Bool-cases (under == k)) [
        | inl e ↦
            let one : r ≡ found = some-injective r found (rw e at there) in
            let k_under : under ≡ k = (eq_iff under k).0 e in
            let apart : (under == key) ≡ false = rw (sym k_under) at other in
            let inside : within r scope ≡ true = rw (sym one) at ours in
            subst (λ (q : Row F). test q.record_ ≡ false) one (ground arith)
        | inr e ↦ others-agree key scope rest test k found (ground arith) (rw e at there) other ours
      ]
