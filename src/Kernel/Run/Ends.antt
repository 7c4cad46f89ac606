-- ===== src/Kernel/Run/Ends.antt =====
-- packages/engine/src/run.ts: how a run ends, and what it leaves.
pub mod Release
use wilanis_js.Common.{◌≤◌, ◌≡◌, refl, ap, ◌∙◌, sym, String, Bool, true, false, ◌&&◌, not, arith}
use wilanis_js.Common.{Option, none, some, List, [], ◌∷◌, Bool-cases, inl, inr}
use wilanis_js.Common.{some_of, if-true, if-false}
use wilanis_js.Common.Dict.{Dict, get, IsDistinct}
use mathlib.Core.Path.{subst}
use mathlib.Core.Option.{some-injective}
use wilanis_js.Types.{Value, Floats}
use wilanis_js.Expr.{Coercions}
use wilanis_js.Kernel.Plan.{Node}
use wilanis_js.Kernel.Run.{
  Run, Graph, NodeReport, Status, Thrown, pending, running, cancelled, done, failed, seeded,
}
use wilanis_js.Kernel.Run.{is_pending, is_running, change, each_value, mark, select, run_cancelled}
use wilanis_js.Kernel.Run.{
  end_as, finish, fail, retire, release, cancel_pending, let_go, Ending, or_else,
}
use wilanis_js.Kernel.Run.{
  run_failed, names_it, catcher_of, note, is_there, fresh, run, Event, initial_report,
}
use wilanis_js.Kernel.Run.{initial_reports}
use wilanis_js.Kernel.Run.Cancel.{one_if}
use wilanis_js.Kernel.Run.Moves.{
  Move, signals, stops, releases, cancels, begins, selects, finishes, fails,
}
use wilanis_js.Kernel.Run.Moves.{ends, is_idle, run-Moves, Moves-keep}
use wilanis_js.Kernel.Run.Count.{count, count-change, count-same, count-each, count-less}
use wilanis_js.Kernel.Run.Count.{
  count-none, Each, Each-get, Each-change, each_value-Each, has_status-found,
}
pub use wilanis_js.Kernel.Run.Ends.Release.{IsExplained}
unfoldable pub use wilanis_js.Kernel.Run.Ends.Release.{is_failed, is_uncaught}
use wilanis_js.Kernel.Run.Ends.Release.{
  Ends, IsCaughtFault, IsMild, cancel-IsMild, change-Ends, end_as-Ends, idle_failed, initial_failed,
  let_go-IsCaughtFault, quiet-IsMild, released-count, running_failed, stop-why, waits,
}

module _ {F : Type 0} where
  release-Ends : (id : String) (r : Run F) → Ends r → Ends (release id r)
  unfolding release Ends
  release-Ends id r (caught, explained) =
      elim (Bool-cases (some_of (λ (_, report). names_it id report.caught) r.reports)) [
        | inr c ↦ subst Ends (sym (if-false _ _ c)) (caught, explained)
        | inl c ↦ subst Ends (sym (if-true _ _ c)) (
            end_as-Ends run_failed (record r { reports = each_value (let_go id) r.reports })
              (each_value-Each IsCaughtFault (let_go id) r.reports (let_go-IsCaughtFault id) caught)
              (λ e. released-count id r.reports caught c))
      ]

  noted-IsCaughtFault :
      (thrown : Thrown F) (catcher : Option String) (report : NodeReport F)
      → IsCaughtFault (note thrown catcher report)
  unfolding note is_failed
  noted-IsCaughtFault thrown catcher report e = cc

  noted-waits :
      (thrown : Thrown F) (catcher : Option String) (report : NodeReport F)
      → waits (note thrown catcher report) ≡ true
      → waits report ≡ true
  unfolding note waits is_pending
  noted-waits thrown catcher report e = cc

  note-caught :
      (thrown : Thrown F) (catcher : Option String) (report : NodeReport F)
      → is_there catcher ≡ true
      → is_uncaught (note thrown catcher report) ≡ false
  unfolding note is_uncaught
  note-caught thrown none report h = cc
  note-caught thrown (some catcher) report h = ground arith

  caught-IsMild :
      (thrown : Thrown F) (catcher : Option String) (report : NodeReport F)
      → is_running report.status ≡ true
      → is_there catcher ≡ true
      → IsMild report (note thrown catcher report)
  unfolding is_uncaught waits
  caught-IsMild thrown catcher report runs c =
      let (not_failed, not_pending) = running_failed report.status runs in
      let quiet : is_uncaught report ≡ false = ground arith in
      (
        note-caught thrown catcher report c ∙ sym quiet,
        λ e. noted-waits thrown catcher report e,
        λ h. noted-IsCaughtFault thrown catcher report,
      )

  -- A fault that nothing catches is one more.
  uncaught-count :
      (id : String) (thrown : Thrown F) (catcher : Option String) (d : Dict (NodeReport F))
      (report : NodeReport F)
      → get id d ≡ some report
      → report.caught ≡ none
      → is_failed report.status ≡ false
      → is_there catcher ≡ false
      → 1 ≤ count is_uncaught (change id (note thrown catcher) d)
  unfolding is_uncaught note is_failed
  uncaught-count id thrown (some catcher) d report found free sound c = cc
  uncaught-count id thrown none d report found free sound c =
      let counted = count-change is_uncaught id (note thrown none) d report found in
      let stands : one_if (is_uncaught (note thrown none report)) ≡ 1 =
        ap (λ (o : Option String). one_if (not (is_there o))) free in
      let quiet : is_uncaught report ≡ false = ground arith in
      let before : one_if (is_uncaught report) ≡ 0 = ap one_if quiet in omega arith

  fail-Ends :
      (g : Graph F) (id : String) (thrown : Thrown F) (r : Run F) (report : NodeReport F)
      → get id r.reports ≡ some report
      → is_running report.status ≡ true
      → Ends r
      → Ends (fail g id thrown r)
  unfolding fail Ends
  fail-Ends g id thrown r report found runs h =
      let catcher = catcher_of g id thrown r in
      let marked = record r { reports = change id (note thrown catcher) r.reports } in
      let is : (other : NodeReport F)
          → get id r.reports ≡ some other
          → is_running other.status ≡ true =
        λ other e.
          subst (λ o. is_running o.status ≡ true) (some-injective report other (sym found ∙ e))
            runs in
      let free =
        Each-get IsCaughtFault id r.reports report found h.0
          (running_failed report.status runs).0 in
      elim (Bool-cases (is_there catcher)) [
        | inl c ↦ subst Ends (sym (if-true _ _ c)) (
            change-Ends id (note thrown catcher) r
              (λ other e. caught-IsMild thrown catcher other (is other e) c) h)
        | inr c ↦ subst Ends (sym (if-false _ _ c)) (
            end_as-Ends run_failed marked
              (Each-change IsCaughtFault id (note thrown catcher) r.reports
                (λ other e k. noted-IsCaughtFault thrown catcher other) h.0)
              (λ e.
                uncaught-count id thrown catcher r.reports report found free
                  (running_failed report.status runs).0 c))
      ]

  Move-Ends :
      (g : Graph F) (may_begin : String → Bool) (r r' : Run F)
      → Move g may_begin r r'
      → Ends r
      → Ends r'
  unfolding finish retire Ends is_failed is_pending is_uncaught waits
  Move-Ends g may _ _ (signals r) h = h
  Move-Ends g may _ _ (stops r) h =
      end_as-Ends run_cancelled r h.0 (λ e. h.1.0 (stop-why r.ending e))
  Move-Ends g may _ _ (releases id r) h = release-Ends id r h
  Move-Ends g may _ _ (cancels id r c) h =
      change-Ends id (mark cancelled) r (λ report found. cancel-IsMild report (rw found at c)) h
  Move-Ends g may _ _ (begins id r m idle) h =
      change-Ends id (mark running) r
        (λ report found.
          quiet-IsMild report (mark running report) (idle_failed report.status (rw found at idle))
            refl refl refl)
        h
  Move-Ends g may _ _ (selects id target r runs) h =
      change-Ends id (select target) r (λ report found. (refl, λ e. e, λ c. c)) h
  Move-Ends g may _ _ (finishes id out r runs) h =
      change-Ends id (mark done) r
        (λ report found.
          quiet-IsMild report (mark done report) (running_failed report.status (rw found at runs)).0
            refl refl refl)
        h
  Move-Ends g may _ _ (fails id thrown r runs) h =
      let (report, found, is) = has_status-found is_running (get id r.reports) runs in
      fail-Ends g id thrown r report found is h
  Move-Ends g may _ _ (ends id at r settling) h =
      change-Ends id _ r (λ report found. (refl, λ e. e, λ c. c)) h

  fresh-counts :
      (initial : Dict (Option (Value F))) (nodes : Dict (Node F))
      → Each IsCaughtFault (initial_reports initial nodes)
        × (count is_uncaught (initial_reports initial nodes) ≡ 0)
  unfolding initial_reports initial_report count is_uncaught
  fresh-counts initial [] = (tt, refl)
  fresh-counts initial ((id, node) ∷ nodes) =
      let (caught, none_failed) = fresh-counts initial nodes in
      let sound = initial_failed F (is_there (get id initial)) in
      ((λ e. refl, caught), rw sound (omega arith))

  fresh-Ends : (g : Graph F) (initial : Dict (Option (Value F))) → Ends (fresh g initial)
  unfolding fresh Ends
  fresh-Ends g initial =
      let (caught, none_failed) = fresh-counts initial g.nodes in
      (caught, (λ e. cc, λ e. none_failed, λ e. cc))

module _ {F : Type 0} ⦃fl : Floats F⦄ ⦃js : Coercions F⦄ where
  -- Over any events, from a run as it is built of a graph that names no node twice: the run has ended as
  -- failed only where some node failed with no switch holding its fault, it has not ended only where
  -- there is no such node, and where it has ended no node is pending.
  pub run-IsExplained :
      (g : Graph F) (initial : Dict (Option (Value F))) (events : List (Event F))
      → IsDistinct g.nodes
      → let r = run g events (fresh g initial) in IsExplained r.ending r.reports
  unfolding Ends
  run-IsExplained g initial events distinct =
      (Moves-keep g (λ id. true) Ends (Move-Ends g (λ id. true)) (fresh g initial)
        (run g events (fresh g initial)) (run-Moves g events (fresh g initial) distinct)
        (fresh-Ends g initial)).1
