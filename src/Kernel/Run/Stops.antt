-- ===== src/Kernel/Run/Stops.antt =====
-- packages/engine/src/run.ts: a run as it is built, and how it ends, cancels and lets go.
use wilanis_js.Common.{ℕ, zero, suc, String, Bool, false, ◌==◌, length}
use wilanis_js.Common.{Option, none, some, List, [], ◌∷◌, some_of, if◌then◌else◌}
use wilanis_js.Common.Dict.{Dict, get, set}
use wilanis_js.Types.{Value}
use wilanis_js.Kernel.Plan.{Node, members, plan_of}
use wilanis_js.Kernel.Run.State.{
  Ending, Graph, NodeReport, Run, Status, cancelled, change, done, each_value, in_turn, is_pending,
  is_there, names_it, or_else, pending, run_failed, seeded,
}

module _ {F : Type 0} where
  -- `initialReport`
  unfoldable pub initial_report : Bool → NodeReport F
  initial_report given = record {
    status = if given then seeded else pending;
    selected = none;
    caught = none;
    error = none;
    reason = none;
    detail = none;
    ended_at = none;
    order = none;
  }

  unfoldable pub initial_reports : Dict (Option (Value F)) → Dict (Node F) → Dict (NodeReport F)
  unfolding initial_report get
  initial_reports initial [] = []
  initial_reports initial ((id, node) ∷ rest) =
      (id, initial_report (is_there (get id initial))) ∷ initial_reports initial rest

  -- A run as it is built, over what is supplied before it.
  unfoldable pub fresh : Graph F → Dict (Option (Value F)) → Run F
  unfolding initial_reports
  fresh g initial = record {
    values = initial;
    reports = initial_reports initial g.nodes;
    ending = none;
    running = 0;
    settles = 0;
    aborted = false;
  }

  abbrev pub has_status : (Status → Bool) → Option (NodeReport F) → Bool
  has_status test none = false
  has_status test (some report) = test report.status

  unfoldable pub cancel_pending : NodeReport F → NodeReport F
  unfolding is_pending
  cancel_pending report =
      if is_pending report.status then record report { status = cancelled } else report

  -- `end` and `cancelRun`: the first ending stands, and nothing still pending starts.
  unfoldable pub end_as : Ending → Run F → Run F
  unfolding cancel_pending
  end_as how r = record r {
    ending = or_else r.ending (some how);
    reports = each_value cancel_pending r.reports;
  }

  unfoldable pub let_go : String → NodeReport F → NodeReport F
  let_go id report = if names_it id report.caught then record report { caught = none } else report

  -- Each fault that the switch holds is let go, which ends the run.
  unfoldable pub release : String → Run F → Run F
  unfolding end_as let_go
  release id r =
      if some_of (λ (_, report). names_it id report.caught) r.reports
      then end_as run_failed (record r { reports = each_value (let_go id) r.reports })
      else r

  abbrev pub mark : Status → NodeReport F → NodeReport F
  mark s report = record report { status = s }

  -- `cancel`; a round of it is taken for each node at most, since each cancels one that is pending.
  unfoldable pub cancel : ℕ → Dict (List String) → String → Run F → Run F
  unfolding is_pending change release get
  cancel zero dependents id r = r
  cancel (suc n) dependents id r =
      if has_status is_pending (get id r.reports)
      then release id (
          in_turn (cancel n dependents) (members id dependents)
            (record r { reports = change id (mark cancelled) r.reports }))
      else r

  -- The targets of a switch that it did not select.
  unfoldable pub cancel_others : Graph F → String → List String → Run F → Run F
  unfolding cancel
  cancel_others g selected [] r = r
  cancel_others g selected (target ∷ rest) r = cancel_others g selected rest (
      if target == selected
      then r
      else cancel (length r.reports) (plan_of g.nodes).dependents target r)

  abbrev pub select : String → NodeReport F → NodeReport F
  select target report = record report { selected = some target }

  -- `finish`
  unfoldable pub finish : String → Option (Value F) → Run F → Run F
  unfolding change set
  finish id out r = record r {
    values = set id out r.values;
    reports = change id (mark done) r.reports;
  }

  -- `caughtRoute`: where a switch sends the first node in its `catch` whose fault it caught.
  unfoldable pub caught_route : String → Dict String → Dict (NodeReport F) → Option String
  unfolding get
  caught_route id [] reports = none
  caught_route id ((caught, target) ∷ rest) reports =
      let later = caught_route id rest reports in
      if (elim (get caught reports) [ none ↦ false | some report ↦ names_it id report.caught ])
      then some target
      else later
