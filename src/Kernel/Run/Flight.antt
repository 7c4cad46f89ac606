-- ===== src/Kernel/Run/Flight.antt =====
-- packages/engine/src/run.ts: `running` counts the nodes in flight, and `order` numbers those that settled.
pub mod Tally
use wilanis_js.Common.{
  ℕ, zero, suc, ◌+◌, ◌-◌, ◌≡◌, refl, ap, ◌∙◌, sym, String, Bool, true, false, ◌||◌, ◌&&◌, arith,
}
use wilanis_js.Common.{Option, none, some, List, [], ◌∷◌, Bool-cases, inl, inr, leb, nat_eq}
use wilanis_js.Common.{some_of, if-true, if-false}
use wilanis_js.Common.Dict.{Dict, get, IsDistinct}
use mathlib.Core.Path.{subst}
use mathlib.Core.Option.{some-injective}
use wilanis_js.Kernel.Run.{
  Run, Graph, NodeReport, Status, Thrown, pending, running, cancelled, done, failed, seeded,
}
use wilanis_js.Kernel.Run.{
  is_pending, is_running, has_status, change, each_value, mark, select, run_cancelled,
}
use wilanis_js.Kernel.Run.{
  end_as, finish, fail, retire, is_settling, release, cancel_pending, let_go, Ending,
}
use wilanis_js.Kernel.Run.{run_failed, names_it, catcher_of, note, is_there}
use wilanis_js.Kernel.Run.Cancel.{one_if}
use wilanis_js.Kernel.Run.Moves.{
  Move, signals, stops, releases, cancels, begins, selects, finishes, fails,
}
use wilanis_js.Kernel.Run.Moves.{ends, is_idle, run-Moves, Moves-keep}
use wilanis_js.Kernel.Run.{initial_report, initial_reports, fresh, run, Event}
use wilanis_js.Types.{Value, Floats}
use wilanis_js.Expr.{Coercions}
use wilanis_js.Kernel.Plan.{Node}
use wilanis_js.Kernel.Run.Count.{
  count, count-change, count-same, count-each, Each, Each-get, Each-change,
}
use wilanis_js.Kernel.Run.Count.{each_value-Each, has_status-found}
pub use wilanis_js.Kernel.Run.Flight.Tally.{has_place, in_flight}
use wilanis_js.Kernel.Run.Flight.Tally.{
  IsPlaced, IsSame, IsTallied, cancel-IsSame, change-IsTallied, end_as-IsTallied, ended-not_both,
  ended_idle, ended_running, flying, flying-ended, flying-false, flying-none, flying-running,
  has_ended, landed, one_fewer, release-IsTallied, settling-ended,
}

module _ {F : Type 0} where
  -- A node that runs comes to one that has ended: still in flight.
  ended-IsSame :
      (was now : NodeReport F)
      → is_running was.status ≡ true
      → IsPlaced was
      → has_ended now.status ≡ true
      → now.order ≡ was.order
      → IsSame was now
  unfolding in_flight
  ended-IsSame was now runs placed over same =
      let none_yet = placed (ended_running was.status runs) in
      (
        ap (flying now.status) (same ∙ none_yet)
            ∙ flying-none now.status was.status (ground arith) (ground arith)
            ∙ sym (ap (flying was.status) none_yet),
        same,
        λ p h. cc,
      )

  begun-IsTallied :
      (id : String) (r : Run F) (report : NodeReport F)
      → get id r.reports ≡ some report
      → is_idle report.status ≡ true
      → IsTallied r
      → IsTallied
          (record r { reports = change id (mark running) r.reports; running = suc r.running })
  unfolding IsTallied in_flight
  begun-IsTallied id r report found idle (placed, flies, places) =
      let (not_ended, not_running) = ended_idle report.status idle in
      let none_yet = Each-get IsPlaced id r.reports report found placed not_ended in
      let counted = count-change in_flight id (mark running) r.reports report found in
      let was = flying-false report.status report.order not_ended not_running in
      (
        Each-change IsPlaced id (mark running) r.reports
            (λ other h p e.
              ap (λ o. o.order) (some-injective other report (sym h ∙ found)) ∙ none_yet)
            placed,
        (let before : one_if (in_flight report) ≡ 0 = ap one_if was in
            let now : one_if (in_flight (mark running report)) ≡ 1 =
              ap one_if (flying-running report.order) in
            omega arith),
        λ k. count-same (has_place k) id (mark running) r.reports (λ other h. refl) ∙ places k,
      )

  retired-IsTallied :
      (id : String) (at : ℕ) (r : Run F) (report : NodeReport F)
      → get id r.reports ≡ some report
      → report.order ≡ none
      → has_ended report.status ≡ true
      → IsTallied r
      → IsTallied (retire id at r)
  unfolding IsTallied in_flight retire has_place
  retired-IsTallied id at r report found none_yet over (placed, flies, places) =
      let f = λ (report : NodeReport F). record report {
        ended_at = some at;
        order = some (r.settles + 1);
      } in
      let counted = count-change in_flight id f r.reports report found in
      let before : one_if (in_flight report) ≡ 1 =
        ap one_if (ap (flying report.status) none_yet ∙ flying-ended report.status over) in
      let now : one_if (in_flight (f report)) ≡ 0 =
        ap one_if (landed report.status (r.settles + 1) over) in
      (
        Each-change IsPlaced id f r.reports
            (λ other h p e. absurd (
              ended-not_both report.status over
                (ap (λ o. has_ended o.status) (some-injective report other (sym found ∙ h)) ∙ e)))
            placed,
        one_fewer r.running ∙ omega arith,
        λ k.
            let numbered = count-change (has_place k) id f r.reports report found in
            let was : one_if (has_place k report) ≡ 0 =
              ap (λ (o : Option ℕ). one_if (elim o [ none ↦ false | some order ↦ nat_eq order k ]))
                none_yet in
            let is = places k in ground arith,
      )

  -- A node in flight that ends is still in flight.
  over-IsTallied :
      (id : String) (f : NodeReport F → NodeReport F) (r : Run F)
      → has_status is_running (get id r.reports) ≡ true
      → ((report : NodeReport F) → has_ended (f report).status ≡ true)
      → ((report : NodeReport F) → (f report).order ≡ report.order)
      → IsTallied r
      → IsTallied (record r { reports = change id f r.reports })
  unfolding IsTallied
  over-IsTallied id f r runs over same h =
      change-IsTallied id f r
        (λ report found.
          let is : is_running report.status ≡ true = rw found at runs in
          ended-IsSame report (f report) is (Each-get IsPlaced id r.reports report found h.0)
            (over report) (same report))
        h

  fail-IsTallied :
      (g : Graph F) (id : String) (thrown : Thrown F) (r : Run F)
      → has_status is_running (get id r.reports) ≡ true
      → IsTallied r
      → IsTallied (fail g id thrown r)
  unfolding fail has_ended note
  fail-IsTallied g id thrown r runs h =
      let catcher = catcher_of g id thrown r in
      let marked = record r { reports = change id (note thrown catcher) r.reports } in
      let kept =
        over-IsTallied id (note thrown catcher) r runs (λ report. refl) (λ report. refl) h in
      elim (Bool-cases (is_there catcher)) [
        | inl c ↦ subst IsTallied (sym (if-true _ _ c)) kept
        | inr c ↦ subst IsTallied (sym (if-false _ _ c)) (end_as-IsTallied run_failed marked kept)
      ]

  settling-found :
      (o : Option (NodeReport F))
      → (elim o [ none ↦ false | some report ↦ is_settling report ]) ≡ true
      → (report : NodeReport F) × (o ≡ some report)
        × (report.order ≡ none)
        × (has_ended report.status ≡ true)
  unfolding is_settling
  settling-found none h = cc
  settling-found (some report) h =
      let (none_yet, over) = settling-ended report.status report.order h in
      (report, refl, none_yet, over)

  -- Each small move keeps the tally.
  pub Move-IsTallied :
      (g : Graph F) (may_begin : String → Bool) (r r' : Run F)
      → Move g may_begin r r'
      → IsTallied r
      → IsTallied r'
  unfolding finish IsTallied in_flight has_ended
  Move-IsTallied g may _ _ (signals r) h = h
  Move-IsTallied g may _ _ (stops r) h = end_as-IsTallied run_cancelled r h
  Move-IsTallied g may _ _ (releases id r) h = release-IsTallied id r h
  Move-IsTallied g may _ _ (cancels id r c) h =
      change-IsTallied id (mark cancelled) r (λ report found. cancel-IsSame report (rw found at c))
        h
  Move-IsTallied g may _ _ (begins id r m idle) h =
      let (report, found, is) = has_status-found is_idle (get id r.reports) idle in
      begun-IsTallied id r report found is h
  Move-IsTallied g may _ _ (selects id target r runs) h =
      change-IsTallied id (select target) r (λ report found. (refl, refl, λ placed. placed)) h
  Move-IsTallied g may _ _ (finishes id out r runs) h =
      over-IsTallied id (mark done) r runs (λ report. refl) (λ report. refl) h
  Move-IsTallied g may _ _ (fails id thrown r runs) h = fail-IsTallied g id thrown r runs h
  Move-IsTallied g may _ _ (ends id at r settling) h =
      let (report, found, none_yet, over) = settling-found (get id r.reports) settling in
      retired-IsTallied id at r report found none_yet over h

initial-flight : (F : Type 0) (given : Bool) → in_flight (initial_report {F = F} given) ≡ false
unfolding in_flight initial_report flying has_ended is_running
initial-flight F true = refl
initial-flight F false = refl

module _ {F : Type 0} where
  fresh-tally :
      (initial : Dict (Option (Value F))) (nodes : Dict (Node F)) (k : ℕ)
      → Each IsPlaced (initial_reports initial nodes)
        × (count in_flight (initial_reports initial nodes) ≡ 0)
        × (count (has_place k) (initial_reports initial nodes) ≡ 0)
  unfolding initial_reports count has_place initial_report
  fresh-tally initial [] k = (tt, refl, refl)
  fresh-tally initial ((id, node) ∷ nodes) k =
      let (placed, none_flies, none_placed) = fresh-tally initial nodes k in
      let lands = initial-flight F (is_there (get id initial)) in
      ((λ e. refl, placed), rw lands (omega arith), omega arith)

  fresh-IsTallied : (g : Graph F) (initial : Dict (Option (Value F))) → IsTallied (fresh g initial)
  unfolding fresh IsTallied
  fresh-IsTallied g initial = (
    (fresh-tally initial g.nodes 0).0,
    sym (fresh-tally initial g.nodes 0).1,
    λ k. (fresh-tally initial g.nodes k).2 ∙ ground arith,
  )

module _ {F : Type 0} ⦃fl : Floats F⦄ ⦃js : Coercions F⦄ where
  -- Over any events, from a run as it is built of a graph that names no node twice: `running` is the
  -- number of nodes in flight, and each place from one to the number of those that settled is the
  -- `order` of exactly one node.
  pub run-tally :
      (g : Graph F) (initial : Dict (Option (Value F))) (events : List (Event F))
      → IsDistinct g.nodes
      → let r = run g events (fresh g initial) in
        (r.running ≡ count in_flight r.reports)
        × ((k : ℕ) → count (has_place k) r.reports ≡ one_if (leb 1 k && leb k r.settles))
  unfolding IsTallied
  run-tally g initial events distinct =
      let (placed, flies, places) =
        Moves-keep g (λ id. true) IsTallied (Move-IsTallied g (λ id. true)) (fresh g initial)
          (run g events (fresh g initial)) (run-Moves g events (fresh g initial) distinct)
          (fresh-IsTallied g initial) in
      (flies, places)
