-- ===== src/Kernel/Plan.antt =====
-- packages/engine/src/plan.ts: what the scheduler knows before anything runs.
use wilanis_js.Common.{
  String, Bool, true, false, not, ◌&&◌, Option, none, some, List, [], ◌∷◌, ◌++◌,
}
use wilanis_js.Common.{includes, if◌then◌else◌}
use wilanis_js.Common.Dict.{Dict, get, set, values}
use wilanis_js.Kernel.{Source, Named, add, pseudo, refs_of, refs_of_named}

-- `KNode`, for what a plan reads of it: a call and a map with their `in` and `after`, a map's `over`,
-- and a switch with where its rules, its `else` and its `catch` route.
pub data Node (F : Type 0) : Type 0 where
  call : Named F → List String → Node F
  map_over : Named F → Source F → List String → Node F
  switch : Named F → List String → String → Dict String → Node F

pub record Plan : Type 0 where
  pub routed_by : Dict String
  pub dependencies : Dict (List String)
  pub dependents : Dict (List String)
  pub catchers : Dict String

abbrev pub names : {V : Type 0} → Dict V → List String
names [] = []
names ((name, v) ∷ rest) = name ∷ names rest

-- `set.add` of each in turn.
unfoldable pub add_all : List String → List String → List String
unfolding add
add_all [] out = out
add_all (name ∷ rest) out = add_all rest (add name out)

-- Each of some keys set to one value.
unfoldable pub set_each : List String → String → Dict String → Dict String
unfolding set
set_each [] v table = table
set_each (key ∷ rest) v table = set_each rest v (set key v table)

unfoldable pub add_router : Option String → List String → List String
unfolding add
add_router none out = out
add_router (some router) out = add router out

module _ {F : Type 0} where
  abbrev pub inputs : Node F → Named F
  inputs (call sources after) = sources
  inputs (map_over sources over after) = sources
  inputs (switch sources rules otherwise caught) = sources

  -- What one node reads.
  unfoldable pub node_refs : Node F → List String
  unfolding refs_of
  node_refs (map_over sources over after) = refs_of over (refs_of_named sources [])
  node_refs (call sources after) = refs_of_named sources []
  node_refs (switch sources rules otherwise caught) = refs_of_named sources []

  unfoldable pub named_after : Node F → List String
  named_after (call sources after) = after
  named_after (map_over sources over after) = after
  named_after (switch sources rules otherwise caught) = []

  -- `Object.keys(node.catch ?? {})` of a switch; none of another node.
  unfoldable pub caught_by : Node F → List String
  caught_by (switch sources rules otherwise caught) = names caught
  caught_by node = []

  unfoldable pub targets_of : Node F → List String
  targets_of (switch sources rules otherwise caught) = rules ++ otherwise ∷ values caught
  targets_of node = []

  -- A node of the spec, and no pseudo-node.
  unfoldable pub is_awaited : Dict (Node F) → String → Bool
  is_awaited nodes name =
      not (includes pseudo name) && (elim (get name nodes) [ none ↦ false | some node ↦ true ])

  unfoldable pub awaited : Dict (Node F) → List String → List String
  unfolding is_awaited
  awaited nodes [] = []
  awaited nodes (name ∷ rest) =
      let later = awaited nodes rest in if is_awaited nodes name then name ∷ later else later

  -- What one node waits for.
  unfoldable pub waits_for : Dict (Node F) → Dict String → String → Node F → List String
  unfolding add_all awaited node_refs named_after caught_by add_router
  waits_for nodes routed_by id node = add_all (caught_by node) (
      add_router (get id routed_by)
        (add_all (awaited nodes (node_refs node ++ named_after node)) []))

  routed_by_of : Dict (Node F) → Dict String → Dict String
  unfolding targets_of set_each
  routed_by_of [] table = table
  routed_by_of ((id, node) ∷ rest) table = routed_by_of rest (set_each (targets_of node) id table)

  catchers_of : Dict (Node F) → Dict String → Dict String
  unfolding caught_by set_each
  catchers_of [] table = table
  catchers_of ((id, node) ∷ rest) table = catchers_of rest (set_each (caught_by node) id table)

  dependencies_of : Dict (Node F) → Dict String → Dict (Node F) → Dict (List String)
  unfolding waits_for
  dependencies_of nodes routed_by [] = []
  dependencies_of nodes routed_by ((id, node) ∷ rest) =
      (id, waits_for nodes routed_by id node) ∷ dependencies_of nodes routed_by rest

abbrev pub or_empty : Option (List String) → List String
or_empty none = []
or_empty (some found) = found

-- `dependents.get(dependency) ?? new Set()`
abbrev pub members : String → Dict (List String) → List String
members name table = or_empty (get name table)

unfoldable pub invert_one : String → List String → Dict (List String) → Dict (List String)
unfolding add
invert_one id [] table = table
invert_one id (dependency ∷ rest) table =
    invert_one id rest (set dependency (add id (members dependency table)) table)

-- The reverse of a dependency table, put into `table`.
unfoldable pub invert : Dict (List String) → Dict (List String) → Dict (List String)
unfolding invert_one
invert [] table = table
invert ((id, waits) ∷ rest) table = invert rest (invert_one id waits table)

unfoldable pub plan_of : {F : Type 0} → Dict (Node F) → Plan
unfolding routed_by_of catchers_of dependencies_of invert
plan_of nodes =
    let routed_by = routed_by_of nodes [] in
    let dependencies = dependencies_of nodes routed_by nodes in
    record {
      routed_by = routed_by;
      dependencies = dependencies;
      dependents = invert dependencies [];
      catchers = catchers_of nodes [];
    }
