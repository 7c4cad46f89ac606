-- ===== src/Kernel/Tests.antt =====
-- A graph of three nodes: `b` reads `a`, and nothing reads `c`.
use mathlib.Core.Path.{subst}
use wilanis_js.Common.{ℕ, ◌≡◌, refl, String, true, false, none, some, List, [], ◌∷◌, ◌==◌, ◌&&◌}
use wilanis_js.Common.{eq_iff, Bool-cases, inl, inr, ◌⊎◌, if◌then◌else◌, includes, some_of}
use wilanis_js.Common.Dict.{Dict, get}
use wilanis_js.Types.{num}
use wilanis_js.Kernel.{ref, nothing_more, named, Reader, read_all}
use wilanis_js.Kernel.Plan.{Node, call, inputs, is_awaited, waits_for, plan_of, members, invert}
use wilanis_js.Kernel.Inverse.{invert-dependents}
use wilanis_js.Kernel.Waits.{inputs-settled}

abbrev reads_a : Node ℕ
reads_a = call (named "x" (ref "a" []) nothing_more) []

abbrev graph : Dict (Node ℕ)
graph = ("a", call nothing_more []) ∷ ("b", reads_a) ∷ ("c", call nothing_more []) ∷ []

b_waits : waits_for graph [] "b" reads_a ≡ "a" ∷ []
unfolding waits_for get
b_waits = refl

a_dependents : members "a" (plan_of graph).dependents ≡ "b" ∷ []
unfolding plan_of get
a_dependents = refl

-- Two readers that differ at `c` alone.
abbrev reader : ℕ → Reader ℕ
reader n = record {
  at_path = λ name path. if name == "c" then some (num n) else none;
  text_read = none;
  spell = λ v. "a value";
}

c_awaited : is_awaited graph "c" ≡ true
unfolding is_awaited get
c_awaited = refl

c_not_waited : includes (waits_for graph [] "b" reads_a) "c" ≡ false
unfolding waits_for get
c_not_waited = refl

not_c : (is_awaited graph "c" ≡ false) ⊎ (includes (waits_for graph [] "b" reads_a) "c" ≡ true) → ⊥
not_c (inl e) = let wrong = c_awaited in cc
not_c (inr e) = let wrong = c_not_waited in cc

readers_agree :
    (name : String) (path : List String)
    → (is_awaited graph name ≡ false) ⊎ (includes (waits_for graph [] "b" reads_a) name ≡ true)
    → (reader 1).at_path name path ≡ (reader 2).at_path name path
readers_agree name path h = elim (Bool-cases (name == "c")) [
  | inr e ↦ rw e refl
  | inl e ↦ absurd (
      not_c (
        subst
          (λ n. (is_awaited graph n ≡ false) ⊎ (includes (waits_for graph [] "b" reads_a) n ≡ true))
          ((eq_iff name "c").0 e) h))
]

inputs-settled_example : read_all (inputs reads_a) (reader 1) ≡ read_all (inputs reads_a) (reader 2)
inputs-settled_example =
    inputs-settled graph [] "b" reads_a (reader 1) (reader 2) refl refl readers_agree

abbrev waits : Dict (List String)
waits = ("a", []) ∷ ("b", "a" ∷ []) ∷ ("c", []) ∷ []

invert-dependents_example :
    includes (members "a" (invert waits [])) "b"
    ≡ some_of (λ (id, waiting). includes waiting "a" && (id == "b")) waits
invert-dependents_example = invert-dependents waits "a" "b"
