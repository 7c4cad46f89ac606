-- ===== src/Kernel/Waits.antt =====
-- packages/engine/src/plan.ts and sources.ts: a node waits for all that it reads.
use mathlib.Core.Path.{subst}
use wilanis_js.Common.{◌≡◌, sym, String, true, false, ◌==◌, eq_iff}
use wilanis_js.Common.{
  Option, none, some, List, [], ◌∷◌, ◌++◌, includes, arith, ◌⊎◌, inl, inr, Bool-cases,
}
use wilanis_js.Common.Dict.{Dict, get}
use wilanis_js.Kernel.{Reader, refs_of_named, read_all, add}
use wilanis_js.Kernel.Needs.{add-keeps, add-includes, read_all-alike, refs_keep}
use wilanis_js.Kernel.Plan.{Node, call, map_over, switch, inputs, node_refs, named_after, caught_by}
use wilanis_js.Kernel.Plan.{add_all, add_router, awaited, is_awaited, waits_for}

add_all-keeps :
    (more out : List String) (k : String)
    → includes out k ≡ true
    → includes (add_all more out) k ≡ true
unfolding add_all
add_all-keeps [] out k h = h
add_all-keeps (name ∷ more) out k h = add_all-keeps more (add name out) k (add-keeps name out k h)

add_all-includes :
    (more out : List String) (k : String)
    → includes more k ≡ true
    → includes (add_all more out) k ≡ true
unfolding add_all
add_all-includes [] out k h = cc
add_all-includes (name ∷ more) out k h = elim (Bool-cases (name == k)) [
  | inr e ↦ add_all-includes more (add name out) k (ground arith)
  | inl e ↦
      let one : name ≡ k = (eq_iff name k).0 e in
      let here = subst (λ n. includes (add name out) n ≡ true) one (add-includes name out) in
      add_all-keeps more (add name out) k here
]

add_router-keeps :
    (router : Option String) (out : List String) (k : String)
    → includes out k ≡ true
    → includes (add_router router out) k ≡ true
unfolding add_router
add_router-keeps none out k h = h
add_router-keeps (some router) out k h = add-keeps router out k h

includes-front :
    (xs ys : List String) (k : String) → includes xs k ≡ true → includes (xs ++ ys) k ≡ true
includes-front [] ys k h = cc
includes-front (x ∷ xs) ys k h = ground (arith, includes-front xs ys k)

module _ {F : Type 0} where
  awaited-includes :
      (nodes : Dict (Node F)) (xs : List String) (k : String)
      → is_awaited nodes k ≡ true
      → includes xs k ≡ true
      → includes (awaited nodes xs) k ≡ true
  unfolding awaited
  awaited-includes nodes [] k a h = cc
  awaited-includes nodes (x ∷ xs) k a h = elim (Bool-cases (x == k)) [
    | inr e ↦ let later = awaited-includes nodes xs k a (ground arith) in ground arith
    | inl e ↦
        let one : x ≡ k = (eq_iff x k).0 e in
        let kept : is_awaited nodes x ≡ true = rw (sym one) at a in ground arith
  ]

  -- A node waits for every node that it reads.
  waits_for-includes :
      (nodes : Dict (Node F)) (routed_by : Dict String) (id : String) (node : Node F) (k : String)
      → includes (node_refs node) k ≡ true
      → is_awaited nodes k ≡ true
      → includes (waits_for nodes routed_by id node) k ≡ true
  unfolding waits_for
  waits_for-includes nodes routed_by id node k read a = add_all-keeps (caught_by node) _ k (
      add_router-keeps (get id routed_by) _ k (
        add_all-includes (awaited nodes (node_refs node ++ named_after node)) [] k (
          awaited-includes nodes (node_refs node ++ named_after node) k a
            (includes-front (node_refs node) (named_after node) k read))))

  inputs-refs :
      (node : Node F) (k : String)
      → includes (refs_of_named (inputs node) []) k ≡ true
      → includes (node_refs node) k ≡ true
  unfolding node_refs
  inputs-refs (call sources after) k h = h
  inputs-refs (map_over sources over after) k h = refs_keep over (refs_of_named sources []) k h
  inputs-refs (switch sources rules otherwise caught) k h = h

  -- Two readers that spell values and read texts alike, and read the same at every root that is no
  -- node to wait for (a pseudo-node, or none of the spec) and at every node that a node waits for,
  -- yield the same inputs for the node.
  pub inputs-settled :
      (nodes : Dict (Node F)) (routed_by : Dict String) (id : String) (node : Node F)
      (r r' : Reader F)
      → r.text_read ≡ r'.text_read
      → r.spell ≡ r'.spell
      → ((name : String) (path : List String)
          → (is_awaited nodes name ≡ false)
            ⊎ (includes (waits_for nodes routed_by id node) name ≡ true)
          → r.at_path name path ≡ r'.at_path name path)
      → read_all (inputs node) r ≡ read_all (inputs node) r'
  inputs-settled nodes routed_by id node r r' t s same = read_all-alike (inputs node) r r' (
    t,
    s,
    λ name path i. elim (Bool-cases (is_awaited nodes name)) [
      | inr e ↦ same name path (inl e)
      | inl e ↦
          same name path
            (inr (waits_for-includes nodes routed_by id node name (inputs-refs node name i) e))
    ],
  )
