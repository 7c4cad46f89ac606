-- ===== src/Kernel/Inverse.antt =====
-- packages/engine/src/plan.ts: the dependents are the dependencies, read the other way.
use wilanis_js.Common.{◌≡◌, refl, ap, ◌∙◌, String, Bool, true, false, ◌&&◌, ◌||◌, ◌==◌, eq_iff}
use wilanis_js.Common.{Option, some, List, [], ◌∷◌, ◌++◌, includes, some_of, arith, if◌then◌else◌}
use wilanis_js.Common.{Bool-cases, inl, inr, if-true, if-false}
use wilanis_js.Common.Dict.{Dict, get, set, get-set}
use wilanis_js.Kernel.{add}
use wilanis_js.Kernel.Plan.{members, or_empty, invert_one, invert}

includes-snoc :
    (xs : List String) (name k : String)
    → includes (xs ++ name ∷ []) k ≡ (includes xs k || (name == k))
includes-snoc [] name k = ground arith
includes-snoc (x ∷ xs) name k = ground (arith, includes-snoc xs name k)

includes-add :
    (name : String) (out : List String) (k : String)
    → includes (add name out) k ≡ (includes out k || (name == k))
unfolding add
includes-add name out k = elim (Bool-cases (includes out name)) [
  | inr e ↦ rw e (includes-snoc out name k)
  | inl e ↦ elim (Bool-cases (name == k)) [
    | inr e' ↦ ground arith
    | inl e' ↦
        let one : name ≡ k = (eq_iff name k).0 e' in
        let there : includes out k ≡ true = rw one at e in ground arith
  ]
]

or_empty-if :
    (b : Bool) (xs : List String) (o : Option (List String))
    → or_empty (if b then some xs else o) ≡ (if b then xs else or_empty o)
or_empty-if true xs o = refl
or_empty-if false xs o = refl

or_false : (b : Bool) → (b || false) ≡ b
or_false true = refl
or_false false = refl

members-set :
    (name other : String) (xs : List String) (table : Dict (List String))
    → members other (set name xs table) ≡ (if name == other then xs else members other table)
members-set name other xs table =
    ap or_empty (get-set name other xs table) ∙ or_empty-if (name == other) xs (get other table)

turned : (here one was now : Bool) → here ≡ true → was ≡ now → (was || one) ≡ ((here && one) || now)
turned here one was now h e = ground arith

-- One more dependent of one node.
members-add :
    (id dependency name k : String) (table : Dict (List String))
    → includes (members name (set dependency (add id (members dependency table)) table)) k
      ≡ (((dependency == name) && (id == k)) || includes (members name table) k)
members-add id dependency name k table = elim (Bool-cases (dependency == name)) [
  | inr e ↦
      ap (λ xs. includes xs k)
        (members-set dependency name (add id (members dependency table)) table ∙ if-false _ _ e)
      ∙ rw e refl
  | inl e ↦
      let one : dependency ≡ name = (eq_iff dependency name).0 e in
      let same = ap (λ n. includes (members n table) k) one in
      let added = includes-add id (members dependency table) k in
      ap (λ xs. includes xs k)
        (members-set dependency name (add id (members dependency table)) table ∙ if-true _ _ e)
      ∙ added
      ∙ turned (dependency == name) (id == k) _ _ e same
]

invert_one-members :
    (id : String) (waits : List String) (table : Dict (List String)) (name k : String)
    → includes (members name (invert_one id waits table)) k
      ≡ ((includes waits name && (id == k)) || includes (members name table) k)
unfolding invert_one
invert_one-members id [] table name k = refl
invert_one-members id (dependency ∷ rest) table name k =
    let more = set dependency (add id (members dependency table)) table in
    ground (arith, invert_one-members id rest more name k, members-add id dependency name k table)

invert-members :
    (deps table : Dict (List String)) (name k : String)
    → includes (members name (invert deps table)) k ≡ (
        some_of (λ (id, waits). includes waits name && (id == k)) deps
        || includes (members name table) k)
unfolding invert
invert-members [] table name k = refl
invert-members ((id, waits) ∷ rest) table name k = ground (
  arith,
  invert-members rest (invert_one id waits table) name k,
  invert_one-members id waits table name k,
)

-- A node is among the dependents of another exactly where some entry of the dependency table is that
-- node's and waits for the other.
pub invert-dependents :
    (deps : Dict (List String)) (name k : String)
    → includes (members name (invert deps [])) k
      ≡ some_of (λ (id, waits). includes waits name && (id == k)) deps
unfolding get
invert-dependents deps name k = invert-members deps [] name k ∙ or_false _
