-- ===== src/Kernel/Run/Moves/Kinds.antt =====
-- packages/engine/src/run.ts: the small moves that a run is made of, and what they do to statuses.
use mathlib.Core.Path.{subst}
use wilanis_js.Common.{ℕ, zero, suc, ◌≡◌, refl, ◌∙◌, sym, String, Bool, true, false, ◌==◌, eq_iff}
use wilanis_js.Common.{
  Option, none, some, List, [], ◌∷◌, if◌then◌else◌, includes, Bool-cases, length,
}
use wilanis_js.Common.{inl, inr, if-false}
use wilanis_js.Common.Dict.{Dict, get}
use wilanis_js.Types.{Value}
use wilanis_js.Kernel.Plan.{members, plan_of}
use wilanis_js.Kernel.Run.{
  Run, Graph, NodeReport, Status, Thrown, pending, running, cancelled, done,
}
use wilanis_js.Kernel.Run.{
  is_pending, is_running, has_status, change, mark, select, failed, seeded, in_turn,
}
use wilanis_js.Kernel.Run.{run_cancelled, end_as}
use wilanis_js.Kernel.Run.{finish, fail, retire, is_settling, release, cancel}
use wilanis_js.Kernel.Run.{cancel_others, cancel_pending, each_value}
use wilanis_js.Kernel.Run.Stands.{get-change}

-- Not started: pending, or cancelled.
unfoldable pub is_idle : Status → Bool
is_idle pending = true
is_idle cancelled = true
is_idle running = false
is_idle s = false

idle_running : (s : Status) → is_idle s ≡ true → is_running s ≡ false
unfolding is_idle is_running
idle_running pending h = refl
idle_running cancelled h = refl
idle_running running h = cc
idle_running done h = refl
idle_running failed h = refl
idle_running seeded h = refl

pub pending_idle : (s : Status) → is_pending s ≡ true → is_idle s ≡ true
unfolding is_idle is_pending
pending_idle pending h = refl
pending_idle cancelled h = refl
pending_idle running h = cc
pending_idle done h = cc
pending_idle failed h = cc
pending_idle seeded h = cc

-- Names of which none comes twice.
abbrev pub AreApart : List String → Type 0
AreApart [] = Unit
AreApart (id ∷ rest) = (includes rest id ≡ false) × AreApart rest

module _ {F : Type 0} where
  pub not_both :
      (o : Option (NodeReport F)) → has_status is_running o ≡ true → has_status is_idle o ≡ true → ⊥
  not_both none h k = cc
  not_both (some report) h k = let runs = idle_running report.status k in cc

  pub cancel_pending-idle :
      (report : NodeReport F)
      → is_idle report.status ≡ true
      → is_idle (cancel_pending report).status ≡ true
  unfolding cancel_pending is_idle
  cancel_pending-idle report h = elim (Bool-cases (is_pending report.status)) [
    | inl e ↦ rw (cancel_pending, e) refl
    | inr e ↦ rw (cancel_pending, e) h
  ]

  -- One small move of a run, in which only such nodes begin.
  pub data Move (g : Graph F) (may_begin : String → Bool) : Run F → Run F → Type 0 where
    signals : (r : Run F) → Move g may_begin r (record r { aborted = true })
    stops : (r : Run F) → Move g may_begin r (end_as run_cancelled r)
    releases : (id : String) (r : Run F) → Move g may_begin r (release id r)
    cancels :
        (id : String) (r : Run F)
        → has_status is_pending (get id r.reports) ≡ true
        → Move g may_begin r (record r { reports = change id (mark cancelled) r.reports })
    begins :
        (id : String) (r : Run F)
        → may_begin id ≡ true
        → has_status is_idle (get id r.reports) ≡ true
        → Move g may_begin r
            (record r { reports = change id (mark running) r.reports; running = suc r.running })
    selects :
        (id target : String) (r : Run F)
        → has_status is_running (get id r.reports) ≡ true
        → Move g may_begin r (record r { reports = change id (select target) r.reports })
    finishes :
        (id : String) (out : Option (Value F)) (r : Run F)
        → has_status is_running (get id r.reports) ≡ true
        → Move g may_begin r (finish id out r)
    fails :
        (id : String) (thrown : Thrown F) (r : Run F)
        → has_status is_running (get id r.reports) ≡ true
        → Move g may_begin r (fail g id thrown r)
    ends :
        (id : String) (at : ℕ) (r : Run F)
        → (elim (get id r.reports) [ none ↦ false | some report ↦ is_settling report ]) ≡ true
        → Move g may_begin r (retire id at r)

  pub data Moves (g : Graph F) (may_begin : String → Bool) : Run F → Run F → Type 0 where
    stay : (r : Run F) → Moves g may_begin r r
    and_then :
        (r r' r'' : Run F)
        → Moves g may_begin r r'
        → Move g may_begin r' r''
        → Moves g may_begin r r''

  module _ (g : Graph F) (may_begin : String → Bool) where
    pub one_move : (r r' : Run F) → Move g may_begin r r' → Moves g may_begin r r'
    one_move r r' m = and_then r r r' (stay r) m

    pub Moves-trans :
        (r r' r'' : Run F)
        → Moves g may_begin r r'
        → Moves g may_begin r' r''
        → Moves g may_begin r r''
    Moves-trans r r' r'' ms (stay _) = ms
    Moves-trans r r' r'' ms (and_then _ last _ more m) =
        and_then r last r'' (Moves-trans r r' last ms more) m

    -- What each small move keeps, moves keep.
    pub Moves-keep :
        (P : Run F → Type 0)
        → ((r r' : Run F) → Move g may_begin r r' → P r → P r')
        → (r r' : Run F) → Moves g may_begin r r'
        → P r
        → P r'
    Moves-keep P keep _ _ (stay r) h = h
    Moves-keep P keep _ _ (and_then r r' r'' ms m) h = keep r' r'' m (Moves-keep P keep r r' ms h)

    in_turn-Moves :
        (f : String → Run F → Run F) (ids : List String) (r : Run F)
        → ((id : String) (r : Run F) → Moves g may_begin r (f id r))
        → Moves g may_begin r (in_turn f ids r)
    in_turn-Moves f [] r each = stay r
    in_turn-Moves f (id ∷ ids) r each =
        Moves-trans r (f id r) _ (each id r) (in_turn-Moves f ids (f id r) each)

    cancel-Moves :
        (n : ℕ) (dependents : Dict (List String)) (id : String) (r : Run F)
        → Moves g may_begin r (cancel n dependents id r)
    unfolding cancel
    cancel-Moves zero dependents id r = stay r
    cancel-Moves (suc n) dependents id r =
        elim (Bool-cases (has_status is_pending (get id r.reports))) [
          | inr c ↦ rw (cancel, c) (stay r)
          | inl c ↦
              let marked = record r { reports = change id (mark cancelled) r.reports } in
              let others = in_turn (cancel n dependents) (members id dependents) marked in
              rw (cancel, c)
                (and_then r others (release id others)
                  (Moves-trans r marked others (one_move r marked (cancels id r c)) (
                    in_turn-Moves (cancel n dependents) (members id dependents) marked
                      (cancel-Moves n dependents)))
                  (releases id others))
        ]

    pub cancel_others-Moves :
        (selected : String) (targets : List String) (r : Run F)
        → Moves g may_begin r (cancel_others g selected targets r)
    unfolding cancel_others
    cancel_others-Moves selected [] r = stay r
    cancel_others-Moves selected (target ∷ rest) r =
        let next =
          if target == selected
          then r
          else cancel (length r.reports) (plan_of g.nodes).dependents target r in
        let here : Moves g may_begin r next = elim (Bool-cases (target == selected)) [
          | inl c ↦ rw c (stay r)
          | inr c ↦ rw c (cancel-Moves (length r.reports) (plan_of g.nodes).dependents target r)
        ] in
        Moves-trans r next _ here (cancel_others-Moves selected rest next)

  pub changed-status :
      (test was : Status → Bool) (id : String) (f : NodeReport F → NodeReport F)
      (d : Dict (NodeReport F))
      → ((report : NodeReport F) → was report.status ≡ true → test (f report).status ≡ true)
      → has_status was (get id d) ≡ true
      → has_status test (get id (change id f d)) ≡ true
  unfolding get change
  changed-status test was id f [] becomes h = h
  changed-status test was id f ((k, report) ∷ rest) becomes h = elim (Bool-cases (k == id)) [
    | inl e ↦ rw (e, e) (becomes report (rw e at h))
    | inr e ↦ rw (e, e) (changed-status test was id f rest becomes (rw e at h))
  ]

  pub kept-status :
      (test : Status → Bool) (id j : String) (f : NodeReport F → NodeReport F)
      (d : Dict (NodeReport F))
      → ((report : NodeReport F) → test report.status ≡ true → test (f report).status ≡ true)
      → has_status test (get j d) ≡ true
      → has_status test (get j (change id f d)) ≡ true
  kept-status test id j f d keeps h = elim (Bool-cases (id == j)) [
    | inl e ↦
        let same = (eq_iff id j).0 e in
        subst (λ k. has_status test (get k (change id f d)) ≡ true) same
          (changed-status test test id f d keeps
            (subst (λ k. has_status test (get k d) ≡ true) (sym same) h))
    | inr e ↦ subst (λ o. has_status test o ≡ true) (sym (get-change id j f d ∙ if-false _ _ e)) h
  ]

  pub untouched-status :
      (test : Status → Bool) (id j : String) (f : NodeReport F → NodeReport F)
      (d : Dict (NodeReport F))
      → (id == j) ≡ false
      → has_status test (get j d) ≡ true
      → has_status test (get j (change id f d)) ≡ true
  untouched-status test id j f d e h =
      subst (λ o. has_status test o ≡ true) (sym (get-change id j f d ∙ if-false _ _ e)) h

  pub each-status :
      (test : Status → Bool) (j : String) (f : NodeReport F → NodeReport F)
      (d : Dict (NodeReport F))
      → ((report : NodeReport F) → test report.status ≡ true → test (f report).status ≡ true)
      → has_status test (get j d) ≡ true
      → has_status test (get j (each_value f d)) ≡ true
  unfolding get
  each-status test j f [] keeps h = h
  each-status test j f ((k, report) ∷ rest) keeps h = elim (Bool-cases (k == j)) [
    | inl e ↦ rw e (keeps report (rw e at h))
    | inr e ↦ rw e (each-status test j f rest keeps (rw e at h))
  ]
  -- A node that runs and one that does not are two.
