-- ===== src/Expr/Tests.antt =====
-- Runs of the expression checker and evaluator, and the theorems at concrete inputs: a rule that
-- reads an optional principal behind has().
use mathlib.Core.Path.{subst}
use mathlib.Core.Option.{some-injective}
use wilanis_js.Common.{ℕ, String, true, false, ◌≡◌, refl, none, some, [], ◌∷◌}
use wilanis_js.Common.{ltb, nat_eq, ◌==◌, eq_iff, Bool-cases, inl, inr}
use wilanis_js.Common.Dict.{Dict, get}
use wilanis_js.Types.{Value, str, obj, Members, end, member, member?, string, object}
use wilanis_js.Types.{boolean, Floats, bare, field, closed, unmarked}
use wilanis_js.Types.TypeAt.{type_at, read_into}
use wilanis_js.Types.Conform.{problem_of}
use wilanis_js.Expr.{Coercions, Expr, lit, path, has, bin, conj, compare, eq, quoted}
use wilanis_js.Expr.{evaluate, truthy}
use wilanis_js.Expr.Check.{Input, check, typed, refused, may_be_missing, proved_by}
use wilanis_js.Expr.BlobFree.{IsBlobFree}
use wilanis_js.Expr.Turns.{Fits}
use wilanis_js.Expr.Guard.{ArePathsDotless, AreThere, evaluate-AreThere}
use wilanis_js.Expr.Sound.{AreAsTyped, IsSafe, check-IsSafe}
use wilanis_js.Expr.Typed.{check-conforms}

instance abbrev nat_numbers : Floats ℕ
nat_numbers = record {
  is_finite = λ n. true;
  same = nat_eq;
  less = ltb;
  of_count = λ n. n;
  of_count_finite = λ n. refl;
}

instance abbrev nat_coercions : Coercions ℕ
nat_coercions = record {
  index_of = λ s. none;
  one_object = λ v w. false;
  truthy_number = λ n. ltb 0 n;
  same_value = nat_eq;
  mixed = λ op v w. false;
}

abbrev principal : Input
principal = record {
  type = object none (field "realm" (string none) true unmarked bare) closed;
  optional = true;
}

abbrev inputs : Dict Input
inputs = ("principal", principal) ∷ []

abbrev employee : Members ℕ
employee = member "principal" (obj (member "realm" (str "employee") end)) end

-- has(principal) && principal.realm == 'employee'
abbrev rule : Expr ℕ
rule =
    bin conj (has "principal" [])
      (bin (compare eq) (path "principal" ("realm" ∷ [])) (lit (quoted "employee")))

rule-typed : check rule inputs [] ≡ typed boolean
unfolding check get type_at read_into
rule-typed = refl

-- Without the has() the rule is refused.
unguarded :
    check {F = ℕ} (path "principal" ("realm" ∷ [])) inputs []
    ≡ refused (may_be_missing "principal" ("realm" ∷ []))
unfolding check get type_at read_into
unguarded = refl

rule-holds : truthy (evaluate rule employee) ≡ true
unfolding evaluate truthy
rule-holds = refl

rule-fails : truthy (evaluate rule end) ≡ false
unfolding evaluate truthy
rule-fails = refl

one-AreAsTyped :
    (name : String) (input : Input) (values : Members ℕ)
    → Fits (member? name values) input.type input.optional
    → IsBlobFree input.type
    → AreAsTyped ((name, input) ∷ []) values
unfolding get
one-AreAsTyped name input values fit free root found e = elim (Bool-cases (name == root)) [
  | inr other ↦ let nothing = rw (get, other) at e in cc
  | inl same ↦
      let one : name ≡ root = (eq_iff name root).0 same in
      let it : input ≡ found = some-injective input found (rw (get, same) at e) in
      subst (λ (i : Input). Fits (member? root values) i.type i.optional × IsBlobFree i.type) it
        (subst (λ r. Fits (member? r values) input.type input.optional × IsBlobFree input.type) one
          (fit, free))
]

principal-conforms :
    (v : Value ℕ) → member? "principal" employee ≡ some v → problem_of v principal.type ≡ none
unfolding problem_of
principal-conforms v e =
    subst (λ w. problem_of w principal.type ≡ none)
      (some-injective (obj (member "realm" (str "employee") end)) v e) refl

employee-AreAsTyped : AreAsTyped inputs employee
employee-AreAsTyped =
    one-AreAsTyped "principal" principal employee (principal-conforms, λ e. cc) ((tt, tt), tt)

nothing-AreThere : (values : Members ℕ) → AreThere [] values
nothing-AreThere values root rest dotless i = cc

rule-ArePathsDotless : ArePathsDotless rule
rule-ArePathsDotless = ((refl, tt), ((refl, (refl, tt)), tt))

check-IsSafe_example : IsSafe rule employee
check-IsSafe_example =
    check-IsSafe rule inputs [] employee boolean employee-AreAsTyped (nothing-AreThere employee)
      rule-ArePathsDotless rule-typed

check-conforms_example :
    (w : Value ℕ) × (evaluate rule employee ≡ some w) × (problem_of w boolean ≡ none)
check-conforms_example =
    check-conforms rule inputs [] employee boolean employee-AreAsTyped (nothing-AreThere employee)
      rule-ArePathsDotless tt rule-typed

evaluate-AreThere_example : AreThere (proved_by rule) employee
evaluate-AreThere_example = evaluate-AreThere rule employee rule-ArePathsDotless rule-holds
