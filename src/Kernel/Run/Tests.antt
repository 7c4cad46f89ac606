-- ===== src/Kernel/Run/Tests.antt =====
-- A graph of a call, a switch and what it routes, and its runs.
use mathlib.Core.Option
use wilanis_js.Common.{
  ℕ, ◌≡◌, ◌≤◌, refl, true, false, Option, none, some, List, [], ◌∷◌, nat_eq, ltb, String, arith,
}
use wilanis_js.Common.{leb, ◌&&◌}
use wilanis_js.Common.Dict.{get, values, IsDistinct}
use wilanis_js.Types.{Floats, num}
use wilanis_js.Expr.{Coercions}
use wilanis_js.Kernel.{nothing_more, named, ref}
use wilanis_js.Kernel.Plan.{call, switch}
use wilanis_js.Kernel.Run.{
  Run, Graph, Status, Event, Thrown, looks, answers, breaks, retires, aborts,
}
use wilanis_js.Kernel.Run.{fresh, run, step, running, done, cancelled, ready_of, run_failed}
use wilanis_js.Kernel.Run.Stands.{status, is_settled}
use wilanis_js.Kernel.Run.{is_pending, has_status, release, in_turn, cancel, change, mark}
use wilanis_js.Kernel.Run.Cancel.{cancel-whole, pendings, one_if}
use wilanis_js.Kernel.Run.Count.{count}
use wilanis_js.Kernel.Run.Flight.{in_flight, has_place, run-tally}
use wilanis_js.Kernel.Run.Ends.{is_failed, IsExplained, run-IsExplained}
use wilanis_js.Kernel.Run.Whole.{run-settled, looks-quiet, run-rests}
use wilanis_js.Kernel.Plan.{plan_of, members}
use wilanis_js.Kernel.Report.{report_of, outcome_of, faulted}
use wilanis_js.Kernel.Outcome.{is_named, outcome_of-failed}
use wilanis_js.Common.{some_of, if◌then◌else◌}

instance abbrev nat_floats : Floats ℕ
nat_floats = record {
  is_finite = λ n. true;
  same = nat_eq;
  less = ltb;
  of_count = λ n. n;
  of_count_finite = λ n. refl;
}

instance abbrev nat_coercions : Coercions ℕ
nat_coercions = record {
  index_of = λ s. none;
  one_object = λ v w. false;
  truthy_number = λ n. ltb 0 n;
  same_value = nat_eq;
  mixed = λ op v w. false;
}

-- `s` waits for `a` and routes to `d`, away from `c`, which catches what `x` throws; `u` waits for `a`.
abbrev graph : Graph ℕ
graph = record {
  nodes =
      ("a", call nothing_more [])
      ∷ ("x", call nothing_more [])
      ∷ ("c", switch nothing_more [] "h" (("x", "h") ∷ []))
      ∷ ("s", switch (named "a" (ref "a" []) nothing_more) ("c" ∷ []) "d" [])
      ∷ ("d", call nothing_more [])
      ∷ ("h", call nothing_more [])
      ∷ ("u", call nothing_more ("a" ∷ []))
      ∷ [];
  output = some ("d" ∷ []);
  when = λ id i inputs. false;
  spell = λ v. "a value";
}

abbrev thrown : Thrown ℕ
thrown = record { message = "broke"; reason = none; detail = none }

abbrev events : List (Event ℕ)
events =
    looks
    ∷ breaks "x" thrown
    ∷ retires "x" 5
    ∷ looks
    ∷ answers "a" (some (num 1))
    ∷ retires "a" 6
    ∷ looks
    ∷ []

abbrev after : Run ℕ
after = run graph events (fresh graph [])

abbrev status_of : String → Option Status
status_of id = Option.map status (get id after.reports)

-- The fault of `x` that `c` held ends the run once `s` routes away from `c`, in the round in which `u` was
-- found ready: `u` starts all the same.
started_after_end :
    (after.ending ≡ some run_failed)
    × (status_of "u" ≡ some running)
    × (status_of "d" ≡ some cancelled)
unfolding run get fresh plan_of values
started_after_end = (refl, refl, refl)

graph-IsDistinct : IsDistinct graph.nodes
unfolding get
graph-IsDistinct = (refl, (refl, (refl, (refl, (refl, (refl, (refl, tt)))))))

a_done : status_of "a" ≡ some done
unfolding run get fresh plan_of values
a_done = refl

done_settled : is_settled done ≡ true
unfolding is_settled
done_settled = refl

run-settled_example :
    (Option.map status (get "a" (run graph (aborts ∷ looks ∷ []) after).reports) ≡ some done)
    × (get "a" (run graph (aborts ∷ looks ∷ []) after).values ≡ get "a" after.values)
run-settled_example = run-settled graph (aborts ∷ looks ∷ []) after "a" done done_settled a_done

run-tally_example :
    (after.running ≡ count in_flight after.reports)
    × ((k : ℕ) → count (has_place k) after.reports ≡ one_if (leb 1 k && leb k after.settles))
run-tally_example = run-tally graph [] events graph-IsDistinct

run-IsExplained_example : IsExplained after.ending after.reports
run-IsExplained_example = run-IsExplained graph [] events graph-IsDistinct

looks-quiet_example : ready_of graph graph.nodes (step graph looks after) ≡ []
looks-quiet_example = looks-quiet graph after

after_failed : after.ending ≡ some run_failed
unfolding run get fresh plan_of values
after_failed = refl

outcome_of-failed_example :
    some_of
      (λ entry. is_failed entry.1.status && is_named (outcome_of (report_of graph after)) entry)
      (report_of graph after).nodes
    ≡ true
outcome_of-failed_example = outcome_of-failed graph [] events graph-IsDistinct after_failed

blames_x : outcome_of (report_of graph after) ≡ faulted "x" "broke"
unfolding run get fresh plan_of values outcome_of report_of
blames_x = refl

-- All that was started settles, and the run is at rest.
abbrev all_events : List (Event ℕ)
all_events =
    looks
    ∷ breaks "x" thrown
    ∷ retires "x" 5
    ∷ looks
    ∷ answers "a" (some (num 1))
    ∷ retires "a" 6
    ∷ looks
    ∷ answers "u" none
    ∷ retires "s" 7
    ∷ retires "u" 8
    ∷ []

none_running : (step graph looks (run graph all_events (fresh graph []))).running ≡ 0
unfolding step run get fresh plan_of values
none_running = refl

run-rests_example :
    (ready_of graph graph.nodes (step graph looks (run graph all_events (fresh graph []))) ≡ [])
    × (count in_flight (step graph looks (run graph all_events (fresh graph []))).reports ≡ 0)
run-rests_example = run-rests graph [] all_events graph-IsDistinct none_running

seven : pendings (fresh graph []).reports ≤ 7
unfolding pendings fresh get
seven = omega arith

cancel-whole_example : cancel 7 (plan_of graph.nodes).dependents "c" (fresh graph []) ≡ (
    if has_status is_pending (get "c" (fresh graph []).reports)
    then release "c" (
        in_turn
          (cancel 7 (plan_of graph.nodes).dependents)
          (members "c" (plan_of graph.nodes).dependents)
          (record (fresh graph []) {
            reports = change "c" (mark cancelled) (fresh graph []).reports;
          }))
    else fresh graph [])
cancel-whole_example = cancel-whole (plan_of graph.nodes).dependents 7 "c" (fresh graph []) seven
