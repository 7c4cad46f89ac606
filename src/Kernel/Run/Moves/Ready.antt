-- ===== src/Kernel/Run/Moves/Ready.antt =====
-- packages/engine/src/run.ts: the nodes that are ready are idle, and none is ready twice.
use wilanis_js.Common.{◌≡◌, refl, ap, ◌∙◌, String, Bool, true, false, ◌==◌, eq_iff}
use wilanis_js.Common.{Option, none, some, List, [], ◌∷◌, includes, Bool-cases, some_of}
use wilanis_js.Common.{inl, inr, All}
use wilanis_js.Common.Dict.{Dict, get, IsDistinct}
use wilanis_js.Kernel.Plan.{Node}
use wilanis_js.Kernel.Run.{Run, Graph, NodeReport, Thrown, running, cancelled, done}
use wilanis_js.Kernel.Run.{is_pending, is_running, has_status, change, mark, select}
use wilanis_js.Kernel.Run.{run_cancelled, end_as, is_ready}
use wilanis_js.Kernel.Run.{ready_of, finish, fail, retire, release}
use wilanis_js.Kernel.Run.{cancel_pending, each_value, Ending}
use wilanis_js.Kernel.Run.{run_failed, let_go, names_it, catcher_of, note, is_there}
use wilanis_js.Kernel.Run.Cancel.{let_go-status}
use wilanis_js.Kernel.Run.Rounds.{ready-pending}
use wilanis_js.Kernel.Run.Moves.Kinds.{
  AreApart, Move, Moves, Moves-keep, begins, cancel_pending-idle, cancels, each-status, ends, fails,
  finishes, is_idle, kept-status, not_both, pending_idle, releases, selects, signals, stops,
  untouched-status,
}

module _ {F : Type 0} where
  running-idle :
      (i j : String) (d : Dict (NodeReport F))
      → has_status is_running (get i d) ≡ true
      → has_status is_idle (get j d) ≡ true
      → (i == j) ≡ false
  running-idle i j d runs idle = elim (Bool-cases (i == j)) [
    | inr e ↦ e
    | inl e ↦ absurd (not_both (get j d) (rw ((eq_iff i j).0 e) at runs) idle)
  ]

  module _ (g : Graph F) (may_begin : String → Bool) (j : String)
      (none_begins : may_begin j ≡ false) where
    end_as-idle :
        (how : Ending) (r : Run F)
        → has_status is_idle (get j r.reports) ≡ true
        → has_status is_idle (get j (end_as how r).reports) ≡ true
    unfolding end_as
    end_as-idle how r h = each-status is_idle j cancel_pending r.reports cancel_pending-idle h

    release-idle :
        (id : String) (r : Run F)
        → has_status is_idle (get j r.reports) ≡ true
        → has_status is_idle (get j (release id r).reports) ≡ true
    unfolding release
    release-idle id r h =
        elim (Bool-cases (some_of (λ (_, report). names_it id report.caught) r.reports)) [
          | inr c ↦ rw (release, c) h
          | inl c ↦
              rw (release, c)
                (end_as-idle run_failed (record r { reports = each_value (let_go id) r.reports })
                  (each-status is_idle j (let_go id) r.reports
                    (λ report i. ap is_idle (let_go-status id report) ∙ i) h))
        ]

    fail-idle :
        (id : String) (thrown : Thrown F) (r : Run F)
        → (id == j) ≡ false
        → has_status is_idle (get j r.reports) ≡ true
        → has_status is_idle (get j (fail g id thrown r).reports) ≡ true
    unfolding fail
    fail-idle id thrown r other h =
        let catcher = catcher_of g id thrown r in
        let marked = record r { reports = change id (note thrown catcher) r.reports } in
        let still = untouched-status is_idle id j (note thrown catcher) r.reports other h in
        elim (Bool-cases (is_there catcher)) [
          | inl c ↦ rw (fail, c) still
          | inr c ↦ rw (fail, c) (end_as-idle run_failed marked still)
        ]

    begun-apart : (id : String) → may_begin id ≡ true → (id == j) ≡ false
    begun-apart id may = elim (Bool-cases (id == j)) [
      | inr e ↦ e
      | inl e ↦ let may_j = rw ((eq_iff id j).0 e) at may in cc
    ]

    Move-idle :
        (r r' : Run F)
        → Move g may_begin r r'
        → has_status is_idle (get j r.reports) ≡ true
        → has_status is_idle (get j r'.reports) ≡ true
    unfolding finish retire is_idle
    Move-idle _ _ (signals r) h = h
    Move-idle _ _ (stops r) h = end_as-idle run_cancelled r h
    Move-idle _ _ (releases id r) h = release-idle id r h
    Move-idle _ _ (cancels id r c) h =
        kept-status is_idle id j (mark cancelled) r.reports (λ report i. refl) h
    Move-idle _ _ (begins id r may idle) h =
        untouched-status is_idle id j (mark running) r.reports (begun-apart id may) h
    Move-idle _ _ (selects id target r runs) h =
        kept-status is_idle id j (select target) r.reports (λ report i. i) h
    Move-idle _ _ (finishes id out r runs) h =
        untouched-status is_idle id j (mark done) r.reports (running-idle id j r.reports runs h) h
    Move-idle _ _ (fails id thrown r runs) h =
        fail-idle id thrown r (running-idle id j r.reports runs h) h
    Move-idle _ _ (ends id at r settling) h = kept-status is_idle id j _ r.reports (λ report i. i) h

    pub Moves-idle :
        (r r' : Run F)
        → Moves g may_begin r r'
        → has_status is_idle (get j r.reports) ≡ true
        → has_status is_idle (get j r'.reports) ≡ true
    Moves-idle = Moves-keep g may_begin (λ r. has_status is_idle (get j r.reports) ≡ true) Move-idle

  unknown-ready :
      (g : Graph F) (nodes : Dict (Node F)) (r : Run F) (k : String)
      → get k nodes ≡ none
      → includes (ready_of g nodes r) k ≡ false
  unfolding ready_of get
  unknown-ready g [] r k h = refl
  unknown-ready g ((j, node) ∷ nodes) r k h = elim (Bool-cases (j == k)) [
    | inl e ↦ (let gone = rw e at h in cc)
    | inr e ↦
        let later = unknown-ready g nodes r k (rw e at h) in
        elim (Bool-cases (is_ready g j node r)) [ inl c ↦ rw (c, e) later | inr c ↦ rw c later ]
  ]

  pub ready-AreApart :
      (g : Graph F) (nodes : Dict (Node F)) (r : Run F)
      → IsDistinct nodes
      → AreApart (ready_of g nodes r)
  unfolding ready_of
  ready-AreApart g [] r h = tt
  ready-AreApart g ((j, node) ∷ nodes) r h = elim (Bool-cases (is_ready g j node r)) [
    | inl c ↦ rw c (unknown-ready g nodes r j h.0, ready-AreApart g nodes r h.1)
    | inr c ↦ rw c (ready-AreApart g nodes r h.1)
  ]

  abbrev pub AreIdle : Run F → List String → Type 0
  AreIdle r = All (λ id. has_status is_idle (get id r.reports) ≡ true)

  pending-idle :
      (o : Option (NodeReport F)) → has_status is_pending o ≡ true → has_status is_idle o ≡ true
  pending-idle none h = h
  pending-idle (some report) h = pending_idle report.status h

  pub ready-AreIdle :
      (g : Graph F) (nodes : Dict (Node F)) (r : Run F) → AreIdle r (ready_of g nodes r)
  unfolding ready_of
  ready-AreIdle g [] r = tt
  ready-AreIdle g ((j, node) ∷ nodes) r = elim (Bool-cases (is_ready g j node r)) [
    | inl c ↦
        rw c (pending-idle (get j r.reports) (ready-pending g j node r c), ready-AreIdle g nodes r)
    | inr c ↦ rw c (ready-AreIdle g nodes r)
  ]
