-- ===== src/Kernel/Run.antt =====
-- packages/engine/src/run.ts: one run of a graph, as a step function over what reaches it. A node that is
-- a call or a map answers or breaks at some later moment; a switch routes at once.
pub mod Cancel
pub mod Rounds
pub mod Moves
pub mod Count
pub mod Flight
pub mod Ends
pub mod Whole
mod Tests
pub mod Stands
pub mod Settled
pub mod State
pub mod Stops
use wilanis_js.Common.{ℕ, zero, suc, ◌+◌, String, Bool, true, false, not, ◌&&◌, ◌||◌, ◌==◌, length}
use wilanis_js.Common.{Option, none, some, List, [], ◌∷◌, every, some_of, includes, if◌then◌else◌}
use wilanis_js.Common.Dict.{Dict, get, set}
use wilanis_js.Types.{Value, str, Members, Floats}
use wilanis_js.Expr.{Coercions}
use wilanis_js.Kernel.{read_all, reader_of, pseudo}
use wilanis_js.Kernel.Plan.{Node, switch, node_refs, targets_of, members, plan_of}
pub use wilanis_js.Kernel.Run.State.{
  Ending, Event, Graph, NodeReport, Run, Status, Thrown, aborts, answers, breaks, cancelled, done,
  each_value, failed, in_turn, is_there, looks, names_it, or_else, pending, retires, run_cancelled,
  run_failed, running, seeded,
}
unfoldable pub use wilanis_js.Kernel.Run.State.{change, has_answered, is_pending, is_running}
use wilanis_js.Kernel.Run.State.{defined, first_rule}
pub use wilanis_js.Kernel.Run.Stops.{has_status, mark, select}
unfoldable pub use wilanis_js.Kernel.Run.Stops.{
  cancel, cancel_others, cancel_pending, end_as, finish, fresh, initial_report, initial_reports,
  let_go, release,
}
use wilanis_js.Kernel.Run.Stops.{caught_route}

module _ {F : Type 0} where
  -- The switch that catches a node's fault: never a refusal's.
  unfoldable pub catcher_of : Graph F → String → Thrown F → Run F → Option String
  unfolding get is_pending
  catcher_of g id thrown r =
      if is_there thrown.reason then none else elim (get id (plan_of g.nodes).catchers) [
        | none ↦ none
        | some catcher ↦
            if has_status is_pending (get catcher r.reports)
              || (elim r.ending [ some run_cancelled ↦ true | _ ↦ false ])
            then some catcher
            else none
      ]

  -- What a failed node's report says, `noteRefusal` included.
  unfoldable pub note : Thrown F → Option String → NodeReport F → NodeReport F
  note thrown catcher report = record report {
    status = failed;
    error = some thrown.message;
    reason = thrown.reason;
    detail = if is_there thrown.reason then thrown.detail else report.detail;
    caught = or_else catcher report.caught;
  }

  unfoldable pub fail : Graph F → String → Thrown F → Run F → Run F
  unfolding catcher_of note change end_as
  fail g id thrown r =
      let catcher = catcher_of g id thrown r in
      let marked = record r { reports = change id (note thrown catcher) r.reports } in
      if is_there catcher then marked else end_as run_failed marked

  abbrev pub settled_for : String → Option (NodeReport F) → Bool
  settled_for id none = false
  settled_for id (some report) = has_answered report.status || names_it id report.caught

  abbrev pub selected_by : String → Option (NodeReport F) → Bool
  selected_by id none = false
  selected_by id (some router) = names_it id router.selected

  unfoldable pub dependencies_settled : Graph F → String → Run F → Bool
  unfolding get has_answered
  dependencies_settled g id r =
      every (λ dependency. settled_for id (get dependency r.reports))
        (members id (plan_of g.nodes).dependencies)

  unfoldable pub routed_to : Graph F → String → Run F → Bool
  unfolding get
  routed_to g id r = elim (get id (plan_of g.nodes).routed_by) [
    | none ↦ true
    | some router ↦ selected_by id (get router r.reports)
  ]

  unfoldable pub roots_supplied : Node F → Run F → Bool
  unfolding get
  roots_supplied node r =
      every (λ name. not (includes pseudo name) || is_there (get name r.values)) (node_refs node)

  unfoldable pub is_ready : Graph F → String → Node F → Run F → Bool
  unfolding is_pending get dependencies_settled routed_to roots_supplied
  is_ready g id node r =
      not (is_there r.ending)
      && has_status is_pending (get id r.reports)
      && dependencies_settled g id r
      && routed_to g id r
      && roots_supplied node r

  unfoldable pub ready_of : Graph F → Dict (Node F) → Run F → List String
  unfolding is_ready
  ready_of g [] r = []
  ready_of g ((id, node) ∷ rest) r =
      let later = ready_of g rest r in if is_ready g id node r then id ∷ later else later

  -- `finally`
  unfoldable pub retire : String → ℕ → Run F → Run F
  unfolding change
  retire id at r = record r {
    reports =
        change id (λ report. record report { ended_at = some at; order = some (r.settles + 1) })
          r.reports;
    settles = r.settles + 1;
    running = elim r.running [ zero ↦ 0 | suc n ↦ n ];
  }

  -- A node that settled, and whose `finally` is still to come.
  unfoldable pub is_settling : NodeReport F → Bool
  is_settling report = elim report.order [
    | some n ↦ false
    | none ↦ elim report.status [ done ↦ true | failed ↦ true | _ ↦ false ]
  ]

  -- `if (signal.aborted) this.cancelRun()`
  unfoldable pub heed : Run F → Run F
  unfolding end_as
  heed r = if r.aborted then end_as run_cancelled r else r

module _ {F : Type 0} ⦃fl : Floats F⦄ ⦃js : Coercions F⦄ where
  -- What `runSwitch` selects.
  unfoldable pub route : Graph F → String → Node F → Run F → String
  unfolding caught_route first_rule defined reader_of
  route g id (switch sources rules otherwise caught) r =
      let inputs = read_all sources (reader_of g.spell (defined r.values)) in
      elim (or_else (caught_route id caught r.reports)
        (first_rule (λ i. g.when id i inputs) 0 rules)) [ none ↦ otherwise | some target ↦ target ]
  route g id node r = ""

  -- `runSwitch`
  unfoldable pub run_switch : Graph F → String → Node F → Run F → Run F
  unfolding route change finish cancel_others
  run_switch g id node r =
      let selected = route g id node r in
      cancel_others g selected (targets_of node) (
        finish id (some (str selected))
          (record r { reports = change id (select selected) r.reports }))

  -- What `runNode` does at once: nothing but where the node is a switch.
  unfoldable pub run_node : Graph F → String → Option (Node F) → Run F → Run F
  unfolding run_switch
  run_node g id (some (switch sources rules otherwise caught)) r =
      run_switch g id (switch sources rules otherwise caught) r
  run_node g id found r = r

  unfoldable pub start : Graph F → String → Run F → Run F
  unfolding change run_node get
  start g id r =
      run_node g id (get id g.nodes)
        (record r { reports = change id (mark running) r.reports; running = suc r.running })

  unfoldable pub start_all : Graph F → List String → Run F → Run F
  unfolding start
  start_all g [] r = r
  start_all g (id ∷ rest) r = start_all g rest (start g id r)

  -- `schedule`, from one wait to the next, in so many rounds at most.
  unfoldable pub schedule : ℕ → Graph F → Run F → Run F
  unfolding heed ready_of start_all
  schedule zero g r = r
  schedule (suc n) g r = elim (ready_of g g.nodes (heed r)) [
    | [] ↦ heed r
    | id ∷ rest ↦ schedule n g (start_all g (id ∷ rest) (heed r))
  ]

  unfoldable pub step : Graph F → Event F → Run F → Run F
  unfolding schedule finish fail retire is_settling is_running get
  step g aborts r = end_as run_cancelled (record r { aborted = true })
  step g looks r = schedule (suc (length r.reports)) g r
  step g (answers id out) r =
      if has_status is_running (get id r.reports) then finish id out r else r
  step g (breaks id thrown) r =
      if has_status is_running (get id r.reports) then fail g id thrown r else r
  step g (retires id at) r =
      if (elim (get id r.reports) [ none ↦ false | some report ↦ is_settling report ])
      then retire id at r
      else r

  unfoldable pub run : Graph F → List (Event F) → Run F → Run F
  unfolding step
  run g [] r = r
  run g (e ∷ events) r = run g events (step g e r)
