-- ===== src/Kernel/Run/Whole.antt =====
-- packages/engine/src/run.ts: what holds of a whole run.
use mathlib.Core.Option
use wilanis_js.Common.{suc, ◌≡◌, refl, ap, ◌∙◌, sym, String, true, length, arith}
use wilanis_js.Common.{Option, some, List, [], ◌∷◌, ◌++◌}
use mathlib.Core.Path.{subst}
use wilanis_js.Common.Dict.{Dict, get, IsDistinct}
use wilanis_js.Types.{Value, Floats}
use wilanis_js.Expr.{Coercions}
use wilanis_js.Kernel.Run.{Run, Graph, Status, Event, looks, fresh, step, run, ready_of}
use wilanis_js.Kernel.Run.Cancel.{pendings-length, let_go-status}
use wilanis_js.Kernel.Run.Rounds.{schedule-quiet}
use wilanis_js.Kernel.Run.Stands.{is_settled, status, shown_at, IsLasting, Stands}
use wilanis_js.Kernel.Run.Settled.{run-Stands}
use wilanis_js.Kernel.Run.Flight.{in_flight, run-tally}
use wilanis_js.Kernel.Run.Count.{count}

module _ {F : Type 0} where
  status-IsLasting : (s : Status) → is_settled s ≡ true → IsLasting {F = F} status s
  status-IsLasting s settled = record {
    settled = λ report is. ap is_settled is ∙ settled;
    kept = λ j report is. let_go-status j report ∙ is;
    retired = λ at order report is. is;
  }

module _ {F : Type 0} ⦃fl : Floats F⦄ ⦃js : Coercions F⦄ (g : Graph F) where
  -- Whatever reaches a run, a node that was seeded, answered or broke keeps its status, and every read of
  -- its value finds what it found.
  pub run-settled :
      (events : List (Event F)) (r : Run F) (id : String) (s : Status)
      → is_settled s ≡ true
      → Option.map status (get id r.reports) ≡ some s
      → (Option.map status (get id (run g events r).reports) ≡ some s)
        × (get id (run g events r).values ≡ get id r.values)
  unfolding Stands shown_at
  run-settled events r id s settled h =
      run-Stands g id (get id r.values) status s (status-IsLasting s settled) events r (h, refl)

  -- Once the scheduler's loop has gone on, it waits with no node ready: a round more than there are nodes
  -- is enough of it.
  pub looks-quiet : (r : Run F) → ready_of g g.nodes (step g looks r) ≡ []
  unfolding step
  looks-quiet r =
      let bound = pendings-length r.reports in
      schedule-quiet (suc (length r.reports)) g r (omega arith)

  run-last :
      (events : List (Event F)) (e : Event F) (r : Run F)
      → run g (events ++ e ∷ []) r ≡ step g e (run g events r)
  unfolding run
  run-last [] e r = refl
  run-last (first ∷ events) e r = run-last events e (step g first r)

  -- Over any events, from a run as it is built of a graph that names no node twice: when the loop has
  -- gone on and counts none running, no node is in flight and none is ready.
  pub run-rests :
      (initial : Dict (Option (Value F))) (events : List (Event F))
      → IsDistinct g.nodes
      → let r = step g looks (run g events (fresh g initial)) in
        r.running ≡ 0 → (ready_of g g.nodes r ≡ []) × (count in_flight r.reports ≡ 0)
  run-rests initial events distinct h =
      let tally = (run-tally g initial (events ++ looks ∷ []) distinct).0 in
      let last = run-last events looks (fresh g initial) in
      (
        looks-quiet (run g events (fresh g initial)),
        sym (subst (λ r. r.running ≡ count in_flight r.reports) last tally) ∙ h,
      )
