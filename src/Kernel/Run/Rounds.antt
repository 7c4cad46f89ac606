-- ===== src/Kernel/Run/Rounds.antt =====
-- packages/engine/src/run.ts: the scheduler's loop waits only where nothing more is ready.
use mathlib.Core.Path.{subst}
use wilanis_js.Common.{
  ℕ, zero, suc, ◌+◌, ◌≤◌, ◌<◌, ◌≡◌, refl, ap, ◌∙◌, String, true, ◌==◌, length, arith,
}
use wilanis_js.Common.{Option, none, some, List, [], ◌∷◌, if◌then◌else◌, Bool-cases}
use wilanis_js.Common.{inl, inr, List-cases}
use wilanis_js.Common.Dict.{Dict, get}
use wilanis_js.Types.{str, Floats}
use wilanis_js.Expr.{Coercions}
use wilanis_js.Kernel.Plan.{Node, call, map_over, switch, targets_of, plan_of}
use wilanis_js.Kernel.Run.{Run, Graph, NodeReport, running, done, run_cancelled}
use wilanis_js.Kernel.Run.{is_pending, has_status, change, mark, select, cancel, heed, is_ready}
use wilanis_js.Kernel.Run.{
  ready_of, finish, cancel_others, run_switch, run_node, start, start_all, route,
}
use wilanis_js.Kernel.Run.{schedule}
use wilanis_js.Kernel.Run.Cancel.{pendings, pendings-change, change-pendings, end_as-pendings}
use wilanis_js.Kernel.Run.Cancel.{cancel-pendings, one_if}

module _ {F : Type 0} where
  pub heed-pendings : (r : Run F) → pendings (heed r).reports ≤ pendings r.reports
  unfolding heed
  heed-pendings r = elim (Bool-cases r.aborted) [
    | inl e ↦ rw (heed, e) (end_as-pendings run_cancelled r)
    | inr e ↦ rw (heed, e) (omega arith)
  ]

  select-pendings :
      (id target : String) (d : Dict (NodeReport F))
      → pendings (change id (select target) d) ≡ pendings d
  unfolding change pendings
  select-pendings id target [] = refl
  select-pendings id target ((k, report) ∷ rest) = elim (Bool-cases (k == id)) [
    | inl e ↦ rw e refl
    | inr e ↦ rw e (let tail = select-pendings id target rest in omega arith)
  ]

  cancel_others-pendings :
      (g : Graph F) (selected : String) (targets : List String) (r : Run F)
      → pendings (cancel_others g selected targets r).reports ≤ pendings r.reports
  unfolding cancel_others
  cancel_others-pendings g selected [] r = omega arith
  cancel_others-pendings g selected (target ∷ rest) r =
      let next =
        if target == selected
        then r
        else cancel (length r.reports) (plan_of g.nodes).dependents target r in
      let others = cancel_others-pendings g selected rest next in
      let one : pendings next.reports ≤ pendings r.reports =
        elim (Bool-cases (target == selected)) [
          | inl e ↦ rw e (omega arith)
          | inr e ↦ rw e (cancel-pendings (plan_of g.nodes).dependents (length r.reports) target r)
        ] in
      omega arith

  -- A node that is ready is pending.
  pub ready-pending :
      (g : Graph F) (id : String) (node : Node F) (r : Run F)
      → is_ready g id node r ≡ true
      → has_status is_pending (get id r.reports) ≡ true
  unfolding is_ready
  ready-pending g id node r h = ground arith

  ready_of-pending :
      (g : Graph F) (nodes : Dict (Node F)) (r : Run F) (id : String) (rest : List String)
      → ready_of g nodes r ≡ id ∷ rest
      → has_status is_pending (get id r.reports) ≡ true
  unfolding ready_of
  ready_of-pending g [] r id rest h = cc
  ready_of-pending g ((k, node) ∷ nodes) r id rest h = elim (Bool-cases (is_ready g k node r)) [
    | inr e ↦ ready_of-pending g nodes r id rest (rw e at h)
    | inl e ↦
        let begins : k ∷ ready_of g nodes r ≡ id ∷ rest = rw e at h in
        let same : k ≡ id = cc in
        subst (λ name. has_status is_pending (get name r.reports) ≡ true) same
          (ready-pending g k node r e)
  ]

module _ {F : Type 0} ⦃fl : Floats F⦄ ⦃js : Coercions F⦄ where
  run_switch-pendings :
      (g : Graph F) (id : String) (node : Node F) (r : Run F)
      → pendings (run_switch g id node r).reports ≤ pendings r.reports
  unfolding run_switch finish is_pending
  run_switch-pendings g id node r =
      let selected = route g id node r in
      let reports = change id (select selected) r.reports in
      let one = select-pendings id selected r.reports in
      let two = change-pendings id (mark done) reports (λ report. refl) in
      let three =
        cancel_others-pendings g selected (targets_of node)
          (finish id (some (str selected)) (record r { reports = reports })) in
      omega arith

  run_node-pendings :
      (g : Graph F) (id : String) (found : Option (Node F)) (r : Run F)
      → pendings (run_node g id found r).reports ≤ pendings r.reports
  unfolding run_node
  run_node-pendings g id none r = omega arith
  run_node-pendings g id (some (call sources after)) r = omega arith
  run_node-pendings g id (some (map_over sources over after)) r = omega arith
  run_node-pendings g id (some (switch sources rules otherwise caught)) r =
      run_switch-pendings g id (switch sources rules otherwise caught) r

  -- Starting a node that is pending leaves one fewer to start.
  start-pendings :
      (g : Graph F) (id : String) (r : Run F)
      → one_if (has_status is_pending (get id r.reports)) + pendings (start g id r).reports
        ≤ pendings r.reports
  unfolding start is_pending
  start-pendings g id r =
      let marked = record r {
        reports = change id (mark running) r.reports;
        running = suc r.running;
      } in
      let one = pendings-change id (mark running) r.reports (λ report. refl) in
      let two = run_node-pendings g id (get id g.nodes) marked in omega arith

  start_all-pendings :
      (g : Graph F) (ids : List String) (r : Run F)
      → pendings (start_all g ids r).reports ≤ pendings r.reports
  unfolding start_all
  start_all-pendings g [] r = omega arith
  start_all-pendings g (id ∷ rest) r =
      let here = start-pendings g id r in
      let later = start_all-pendings g rest (start g id r) in omega arith

  start_all-fewer :
      (g : Graph F) (id : String) (rest : List String) (r : Run F)
      → has_status is_pending (get id r.reports) ≡ true
      → pendings (start_all g (id ∷ rest) r).reports < pendings r.reports
  unfolding start_all
  start_all-fewer g id rest r is =
      let one = rw is at (start-pendings g id r) in
      let others = start_all-pendings g rest (start g id r) in omega arith

  -- The loop, given one round more than nodes are pending, waits where no node is ready.
  pub schedule-quiet :
      (n : ℕ) (g : Graph F) (r : Run F)
      → pendings r.reports < n
      → ready_of g g.nodes (schedule n g r) ≡ []
  unfolding schedule
  schedule-quiet zero g r h = absurd (omega arith)
  schedule-quiet (suc n) g r h = elim (List-cases (ready_of g g.nodes (heed r))) [
    | inl e ↦ rw (schedule, e) e
    | inr (id, rest, e) ↦
        let looked : schedule (suc n) g r ≡ schedule n g (start_all g (id ∷ rest) (heed r)) =
          rw (schedule, e) refl in
        let is = ready_of-pending g g.nodes (heed r) id rest e in
        let fewer = start_all-fewer g id rest (heed r) is in
        let before = heed-pendings r in
        ap (ready_of g g.nodes) looked
        ∙ schedule-quiet n g (start_all g (id ∷ rest) (heed r)) (omega arith)
  ]
