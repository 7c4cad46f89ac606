-- ===== src/Kernel/Run/Settled.antt =====
-- packages/engine/src/run.ts: nothing that reaches a run changes a node that has settled.
use wilanis_js.Common.{ℕ, zero, suc, ◌≡◌, refl, ◌∙◌, sym, String, true, false, ◌==◌, length, arith}
use wilanis_js.Common.{Option, none, some, List, [], ◌∷◌, includes, Bool-cases}
use wilanis_js.Common.{inl, inr, if-false, List-cases}
use wilanis_js.Common.Dict.{Dict, get, get-set}
use wilanis_js.Types.{Value, str, Floats}
use wilanis_js.Expr.{Coercions}
use wilanis_js.Kernel.Plan.{Node, call, map_over, switch, targets_of}
use wilanis_js.Kernel.Run.{Run, Graph, NodeReport, Event, Thrown, running, done, run_cancelled}
use wilanis_js.Kernel.Run.{is_running, has_status, change, mark, select, is_there}
use wilanis_js.Kernel.Run.{aborts, looks, answers, breaks, retires, run_failed, heed, is_ready}
use wilanis_js.Kernel.Run.{
  ready_of, finish, fail, note, catcher_of, retire, is_settling, route, run_switch,
}
use wilanis_js.Kernel.Run.{run_node, start, start_all, schedule, step, run}
use wilanis_js.Kernel.Run.Stands.{IsLasting, Stands, pending-apart, running-apart}
use wilanis_js.Kernel.Run.Stands.{shown_at-other, shown_at-change, end_as-Stands}
use wilanis_js.Kernel.Run.Stands.{cancel_others-Stands}
use wilanis_js.Kernel.Run.Rounds.{ready-pending}
use mathlib.Core.Path.{subst}

module _ {F A : Type 0} (id : String) (v : Option (Option (Value F))) (view : NodeReport F → A)
    (a : A) (lasting : IsLasting view a) where
  changed-Stands :
      (j : String) (f : NodeReport F → NodeReport F) (n : ℕ) (r : Run F)
      → (j == id) ≡ false
      → Stands id v view a r
      → Stands id v view a (record r { reports = change j f r.reports; running = n })
  unfolding Stands
  changed-Stands j f n r other (h, e) = (shown_at-other view j id f r.reports other ∙ h, e)

  finish-Stands :
      (j : String) (out : Option (Value F)) (r : Run F)
      → (j == id) ≡ false
      → Stands id v view a r
      → Stands id v view a (finish j out r)
  unfolding Stands finish
  finish-Stands j out r other (h, e) = (
    shown_at-other view j id (mark done) r.reports other ∙ h,
    get-set j id out r.values ∙ if-false _ _ other ∙ e,
  )

  fail-Stands :
      (g : Graph F) (j : String) (thrown : Thrown F) (r : Run F)
      → (j == id) ≡ false
      → Stands id v view a r
      → Stands id v view a (fail g j thrown r)
  unfolding fail
  fail-Stands g j thrown r other h =
      let catcher = catcher_of g j thrown r in
      let marked = record r { reports = change j (note thrown catcher) r.reports } in
      let stands = changed-Stands j (note thrown catcher) r.running r other h in
      elim (Bool-cases (is_there catcher)) [
        | inl c ↦ rw (fail, c) stands
        | inr c ↦ rw (fail, c) (end_as-Stands id v view a lasting run_failed marked stands)
      ]

  retire-Stands :
      (j : String) (at : ℕ) (r : Run F) → Stands id v view a r → Stands id v view a (retire j at r)
  unfolding Stands retire
  retire-Stands j at r (h, e) = (shown_at-change view j id _ r.reports a (lasting.retired _ _) h, e)

  heed-Stands : (r : Run F) → Stands id v view a r → Stands id v view a (heed r)
  unfolding heed Stands
  heed-Stands r h = elim (Bool-cases r.aborted) [
    | inl c ↦ rw (heed, c) (end_as-Stands id v view a lasting run_cancelled r h)
    | inr c ↦ rw (heed, c) h
  ]

  -- A settled node is not among those that are ready.
  settled-ready_of :
      (g : Graph F) (nodes : Dict (Node F)) (r : Run F)
      → Stands id v view a r
      → includes (ready_of g nodes r) id ≡ false
  unfolding ready_of
  settled-ready_of g [] r h = refl
  settled-ready_of g ((j, node) ∷ nodes) r h =
      let later = settled-ready_of g nodes r h in
      elim (Bool-cases (is_ready g j node r)) [
        | inr c ↦ rw c later
        | inl c ↦ rw c (
            let other = pending-apart id v view a lasting j r h (ready-pending g j node r c) in
            ground arith)
      ]

module _ {F A : Type 0} ⦃fl : Floats F⦄ ⦃js : Coercions F⦄ (g : Graph F) (id : String)
    (v : Option (Option (Value F))) (view : NodeReport F → A) (a : A)
    (lasting : IsLasting view a) where
  run_node-Stands :
      (j : String) (found : Option (Node F)) (r : Run F)
      → (j == id) ≡ false
      → Stands id v view a r
      → Stands id v view a (run_node g j found r)
  unfolding run_node run_switch
  run_node-Stands j none r other h = h
  run_node-Stands j (some (call sources after)) r other h = h
  run_node-Stands j (some (map_over sources over after)) r other h = h
  run_node-Stands j (some (switch sources rules otherwise caught)) r other h =
      let selected = route g j (switch sources rules otherwise caught) r in
      cancel_others-Stands id v view a lasting g selected
        (targets_of (switch sources rules otherwise caught)) _
        (finish-Stands id v view a lasting j (some (str selected)) _ other
          (changed-Stands id v view a lasting j (select selected) r.running r other h))

  start_all-Stands :
      (ids : List String) (r : Run F)
      → includes ids id ≡ false
      → Stands id v view a r
      → Stands id v view a (start_all g ids r)
  unfolding start_all start
  start_all-Stands [] r others h = h
  start_all-Stands (j ∷ ids) r others h =
      let other : (j == id) ≡ false = ground arith in
      start_all-Stands ids (start g j r) (ground arith) (
        run_node-Stands j (get j g.nodes) _ other
          (changed-Stands id v view a lasting j (mark running) (suc r.running) r other h))

  schedule-Stands : (n : ℕ) (r : Run F) → Stands id v view a r → Stands id v view a (schedule n g r)
  unfolding schedule
  schedule-Stands zero r h = h
  schedule-Stands (suc n) r h =
      let heeded = heed-Stands id v view a lasting r h in
      elim (List-cases (ready_of g g.nodes (heed r))) [
        | inl e ↦ rw (schedule, e) heeded
        | inr (j, rest, e) ↦
            let looked : schedule (suc n) g r ≡ schedule n g (start_all g (j ∷ rest) (heed r)) =
              rw (schedule, e) refl in
            let others : includes (j ∷ rest) id ≡ false =
              rw e at (settled-ready_of id v view a lasting g g.nodes (heed r) heeded) in
            subst (Stands id v view a) (sym looked) (
              schedule-Stands n (start_all g (j ∷ rest) (heed r))
                (start_all-Stands (j ∷ rest) (heed r) others heeded))
      ]

  step-Stands : (e : Event F) (r : Run F) → Stands id v view a r → Stands id v view a (step g e r)
  unfolding step Stands
  step-Stands aborts r h =
      end_as-Stands id v view a lasting run_cancelled (record r { aborted = true }) h
  step-Stands looks r h = schedule-Stands (suc (length r.reports)) r h
  step-Stands (answers j out) r h = elim (Bool-cases (has_status is_running (get j r.reports))) [
    | inr c ↦ rw (step, c) h
    | inl c ↦
        rw (step, c)
          (finish-Stands id v view a lasting j out r (running-apart id v view a lasting j r h c) h)
  ]
  step-Stands (breaks j thrown) r h = elim (Bool-cases (has_status is_running (get j r.reports))) [
    | inr c ↦ rw (step, c) h
    | inl c ↦
        rw (step, c)
          (fail-Stands id v view a lasting g j thrown r (running-apart id v view a lasting j r h c)
            h)
  ]
  step-Stands (retires j at) r h =
      elim (Bool-cases
        (elim (get j r.reports) [ none ↦ false | some report ↦ is_settling report ])) [
          | inr c ↦ rw (step, c) h
          | inl c ↦ rw (step, c) (retire-Stands id v view a lasting j at r h)
        ]

  -- Whatever reaches a run, a node that was seeded, answered or broke keeps its status, and every later
  -- read of it finds the same value.
  pub run-Stands :
      (events : List (Event F)) (r : Run F)
      → Stands id v view a r
      → Stands id v view a (run g events r)
  unfolding run
  run-Stands [] r h = h
  run-Stands (e ∷ events) r h = run-Stands events (step g e r) (step-Stands e r h)
