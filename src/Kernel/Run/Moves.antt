-- ===== src/Kernel/Run/Moves.antt =====
-- packages/engine/src/run.ts: what reaches a run comes down to small moves, each of which changes one node
-- or ends the run.
pub mod Kinds
pub mod Ready
use mathlib.Core.Path.{subst}
use wilanis_js.Common.{
  ℕ, zero, suc, ◌≡◌, refl, ap, ◌∙◌, sym, String, Bool, true, false, ◌==◌, eq_iff,
}
use wilanis_js.Common.{
  Option, none, some, List, [], ◌∷◌, if◌then◌else◌, includes, Bool-cases, length, arith, some_of,
}
use wilanis_js.Common.{inl, inr, if-true, if-false, List-cases, All}
use wilanis_js.Common.Dict.{Dict, get, IsDistinct}
use wilanis_js.Types.{Value, str, Floats}
use wilanis_js.Expr.{Coercions}
use wilanis_js.Kernel.Plan.{Node, call, map_over, switch, targets_of, members, plan_of}
use wilanis_js.Kernel.Run.{
  Run, Graph, NodeReport, Status, Event, Thrown, pending, running, cancelled, done,
}
use wilanis_js.Kernel.Run.{
  is_pending, is_running, has_status, change, mark, select, failed, seeded, in_turn,
}
use wilanis_js.Kernel.Run.{
  aborts, looks, answers, breaks, retires, run_cancelled, end_as, heed, is_ready,
}
use wilanis_js.Kernel.Run.{
  ready_of, finish, fail, retire, is_settling, route, run_switch, release, cancel,
}
use wilanis_js.Kernel.Run.{
  run_node, start, start_all, schedule, step, run, cancel_others, cancel_pending, each_value,
  Ending,
}
use wilanis_js.Kernel.Run.{run_failed, let_go, names_it, catcher_of, note, is_there}
use wilanis_js.Kernel.Run.Stands.{get-change}
use wilanis_js.Kernel.Run.Cancel.{let_go-status}
use wilanis_js.Kernel.Run.Rounds.{ready-pending}
pub use wilanis_js.Kernel.Run.Moves.Kinds.{
  Move, Moves-keep, begins, cancels, ends, fails, finishes, releases, selects, signals, stops,
}
unfoldable pub use wilanis_js.Kernel.Run.Moves.Kinds.{is_idle}
use wilanis_js.Kernel.Run.Moves.Kinds.{
  AreApart, Moves, Moves-trans, and_then, cancel_others-Moves, changed-status, kept-status,
  one_move, stay,
}
use wilanis_js.Kernel.Run.Moves.Ready.{AreIdle, Moves-idle, ready-AreApart, ready-AreIdle}

module _ {F : Type 0} ⦃fl : Floats F⦄ ⦃js : Coercions F⦄ (g : Graph F) where
  run_node-Moves :
      (may_begin : String → Bool) (id : String) (found : Option (Node F)) (r : Run F)
      → has_status is_running (get id r.reports) ≡ true
      → Moves g may_begin r (run_node g id found r)
  unfolding run_node run_switch
  run_node-Moves may_begin id none r runs = stay r
  run_node-Moves may_begin id (some (call sources after)) r runs = stay r
  run_node-Moves may_begin id (some (map_over sources over after)) r runs = stay r
  run_node-Moves may_begin id (some (switch sources rules otherwise caught)) r runs =
      let node = switch sources rules otherwise caught in
      let selected = route g id node r in
      let chosen = record r { reports = change id (select selected) r.reports } in
      let finished = finish id (some (str selected)) chosen in
      let still = kept-status is_running id id (select selected) r.reports (λ report i. i) runs in
      Moves-trans g may_begin r finished (cancel_others g selected (targets_of node) finished)
        (and_then r chosen finished (one_move g may_begin r chosen (selects id selected r runs))
          (finishes id (some (str selected)) chosen still))
        (cancel_others-Moves g may_begin selected (targets_of node) finished)

  start-Moves :
      (may_begin : String → Bool) (id : String) (r : Run F)
      → may_begin id ≡ true
      → has_status is_idle (get id r.reports) ≡ true
      → Moves g may_begin r (start g id r)
  unfolding start is_running
  start-Moves may_begin id r may idle =
      let begun = record r {
        reports = change id (mark running) r.reports;
        running = suc r.running;
      } in
      let runs =
        changed-status is_running is_idle id (mark running) r.reports (λ report i. refl) idle in
      Moves-trans g may_begin r begun (run_node g id (get id g.nodes) begun)
        (one_move g may_begin r begun (begins id r may idle))
        (run_node-Moves may_begin id (get id g.nodes) begun runs)

  started-AreIdle :
      (id : String) (ids : List String) (r : Run F)
      → has_status is_idle (get id r.reports) ≡ true
      → includes ids id ≡ false
      → AreIdle r ids
      → AreIdle (start g id r) ids
  started-AreIdle id [] r idle other h = tt
  started-AreIdle id (j ∷ ids) r idle other h = (
    Moves-idle g (λ k. k == id) j (ground arith) r (start g id r)
        (start-Moves (λ k. k == id) id r (ground (arith, eq_iff id id)) idle) h.0,
    started-AreIdle id ids r idle (ground arith) h.1,
  )

  start_all-Moves :
      (ids : List String) (r : Run F)
      → AreApart ids
      → AreIdle r ids
      → Moves g (λ id. true) r (start_all g ids r)
  unfolding start_all
  start_all-Moves [] r distinct idle = stay r
  start_all-Moves (id ∷ ids) r distinct idle =
      Moves-trans g (λ id. true) r (start g id r) (start_all g ids (start g id r))
        (start-Moves (λ id. true) id r refl idle.0)
        (start_all-Moves ids (start g id r) distinct.1
          (started-AreIdle id ids r idle.0 distinct.0 idle.1))

  heed-Moves : (r : Run F) → Moves g (λ id. true) r (heed r)
  unfolding heed
  heed-Moves r = elim (Bool-cases r.aborted) [
    | inl c ↦
        subst (Moves g (λ id. true) r) (sym (if-true _ _ c)) (one_move g (λ id. true) r _ (stops r))
    | inr c ↦ subst (Moves g (λ id. true) r) (sym (if-false _ _ c)) (stay r)
  ]

  schedule-Moves :
      (n : ℕ) (r : Run F) → IsDistinct g.nodes → Moves g (λ id. true) r (schedule n g r)
  unfolding schedule
  schedule-Moves zero r distinct = stay r
  schedule-Moves (suc n) r distinct = elim (List-cases (ready_of g g.nodes (heed r))) [
    | inl e ↦
        let looked : schedule (suc n) g r ≡ heed r = rw (schedule, e) refl in
        subst (Moves g (λ id. true) r) (sym looked) (heed-Moves r)
    | inr (id, rest, e) ↦
        let next = start_all g (id ∷ rest) (heed r) in
        let looked : schedule (suc n) g r ≡ schedule n g next = rw (schedule, e) refl in
        let distinct_ids : AreApart (id ∷ rest) =
          subst AreApart e (ready-AreApart g g.nodes (heed r) distinct) in
        let idle : AreIdle (heed r) (id ∷ rest) =
          subst (AreIdle (heed r)) e (ready-AreIdle g g.nodes (heed r)) in
        subst (Moves g (λ id. true) r) (sym looked) (
          Moves-trans g (λ id. true) r (heed r) (schedule n g next) (heed-Moves r)
            (Moves-trans g (λ id. true) (heed r) next (schedule n g next)
              (start_all-Moves (id ∷ rest) (heed r) distinct_ids idle)
              (schedule-Moves n next distinct)))
  ]

  step-Moves : (e : Event F) (r : Run F) → IsDistinct g.nodes → Moves g (λ id. true) r (step g e r)
  unfolding step
  step-Moves aborts r distinct =
      let signalled = record r { aborted = true } in
      and_then r signalled _ (one_move g (λ id. true) r signalled (signals r)) (stops signalled)
  step-Moves looks r distinct = schedule-Moves (suc (length r.reports)) r distinct
  step-Moves (answers id out) r distinct =
      elim (Bool-cases (has_status is_running (get id r.reports))) [
        | inr c ↦ rw (step, c) (stay r)
        | inl c ↦ rw (step, c) (one_move g (λ id. true) r _ (finishes id out r c))
      ]
  step-Moves (breaks id thrown) r distinct =
      elim (Bool-cases (has_status is_running (get id r.reports))) [
        | inr c ↦ rw (step, c) (stay r)
        | inl c ↦ rw (step, c) (one_move g (λ id. true) r _ (fails id thrown r c))
      ]
  step-Moves (retires id at) r distinct =
      elim (Bool-cases
        (elim (get id r.reports) [ none ↦ false | some report ↦ is_settling report ])) [
          | inr c ↦ rw (step, c) (stay r)
          | inl c ↦ rw (step, c) (one_move g (λ id. true) r _ (ends id at r c))
        ]

  -- Whatever reaches a run of a graph that names no node twice comes down to small moves.
  pub run-Moves :
      (events : List (Event F)) (r : Run F)
      → IsDistinct g.nodes
      → Moves g (λ id. true) r (run g events r)
  unfolding run
  run-Moves [] r distinct = stay r
  run-Moves (e ∷ events) r distinct =
      Moves-trans g (λ id. true) r (step g e r) (run g events (step g e r))
        (step-Moves e r distinct) (run-Moves events (step g e r) distinct)
