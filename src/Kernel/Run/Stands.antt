-- ===== src/Kernel/Run/Stands.antt =====
-- packages/engine/src/run.ts: a node that has settled stays as it settled, through what the run does to others.
use mathlib.Core.Option
use wilanis_js.Common.{
  ℕ, zero, suc, ◌≡◌, refl, ap, ◌∙◌, String, Bool, true, false, ◌==◌, eq_iff, length, arith,
}
use wilanis_js.Common.{Option, none, some, List, [], ◌∷◌, if◌then◌else◌, Bool-cases, some_of}
use wilanis_js.Common.{inl, inr, if-true, if-false}
use mathlib.Core.Option.{some-injective}
use wilanis_js.Common.Dict.{Dict, get}
use wilanis_js.Types.{Value}
use wilanis_js.Kernel.Plan.{members, plan_of}
use wilanis_js.Kernel.Run.{
  Run, Graph, NodeReport, Status, pending, running, done, failed, cancelled, seeded,
}
use wilanis_js.Kernel.Run.{
  is_pending, is_running, has_status, change, each_value, mark, cancel_pending,
}
use wilanis_js.Kernel.Run.{
  Ending, end_as, let_go, release, cancel, in_turn, names_it, cancel_others,
}
use wilanis_js.Kernel.Run.{run_failed}

-- A node that was given its value, answered or broke.
unfoldable pub is_settled : Status → Bool
is_settled done = true
is_settled seeded = true
is_settled failed = true
is_settled pending = false
is_settled running = false
is_settled cancelled = false

pub settled-pending : (s : Status) → is_settled s ≡ true → is_pending s ≡ false
unfolding is_settled is_pending
settled-pending done h = refl
settled-pending seeded h = refl
settled-pending failed h = refl
settled-pending pending h = cc
settled-pending running h = cc
settled-pending cancelled h = cc

pub settled-running : (s : Status) → is_settled s ≡ true → is_running s ≡ false
unfolding is_settled is_running
settled-running done h = refl
settled-running seeded h = refl
settled-running failed h = refl
settled-running pending h = cc
settled-running running h = cc
settled-running cancelled h = cc

pub get-change :
    {V : Type 0} (key k : String) (f : V → V) (d : Dict V)
    → get k (change key f d) ≡ (if key == k then Option.map f (get k d) else get k d)
unfolding get change
get-change key k f [] = ground arith
get-change key k f ((j, v) ∷ rest) =
    ground (arith, eq_iff key k, eq_iff j key, eq_iff j k, get-change key k f rest)

pub get-each_value :
    {V W : Type 0} (k : String) (f : V → W) (d : Dict V)
    → get k (each_value f d) ≡ Option.map f (get k d)
unfolding get
get-each_value k f [] = refl
get-each_value k f ((j, v) ∷ rest) = elim (Bool-cases (j == k)) [
  | inl e ↦ rw e refl
  | inr e ↦ rw e (get-each_value k f rest)
]

module _ {F : Type 0} where
  abbrev pub status : NodeReport F → Status
  status report = report.status

  -- A status and the switch that caught the fault.
  abbrev pub status_and_catcher : NodeReport F → Status × Option String
  status_and_catcher report = (report.status, report.caught)

module _ {F A : Type 0} (view : NodeReport F → A) where
  -- What a report shows of a node, none where the run has no such node.
  unfoldable pub shown_at : String → Dict (NodeReport F) → Option A
  unfolding get
  shown_at id d = Option.map view (get id d)

  -- A view that only settled nodes have, and that neither a catch let go nor the `finally` changes.
  pub record IsLasting (a : A) : Type 0 where
    pub settled : (report : NodeReport F) → view report ≡ a → is_settled report.status ≡ true
    pub kept : (j : String) (report : NodeReport F) → view report ≡ a → view (let_go j report) ≡ a
    pub retired :
        (at order : Option ℕ) (report : NodeReport F)
        → view report ≡ a
        → view (record report { ended_at = at; order = order }) ≡ a

  report-settled :
      (a : A)
      → IsLasting a
      → (o : Option (NodeReport F)) → Option.map view o ≡ some a
      → has_status is_settled o ≡ true
  report-settled a lasting none h = cc
  report-settled a lasting (some report) h =
      lasting.settled report (some-injective (view report) a h)

  map-change :
      (f : NodeReport F → NodeReport F) (o : Option (NodeReport F)) (a : A)
      → ((report : NodeReport F) → view report ≡ a → view (f report) ≡ a)
      → Option.map view o ≡ some a
      → Option.map view (Option.map f o) ≡ some a
  map-change f none a keeps h = cc
  map-change f (some report) a keeps h = ap some (keeps report (some-injective (view report) a h))

  pub shown_at-other :
      (j id : String) (f : NodeReport F → NodeReport F) (d : Dict (NodeReport F))
      → (j == id) ≡ false
      → shown_at id (change j f d) ≡ shown_at id d
  unfolding shown_at
  shown_at-other j id f d other = ap (Option.map view) (get-change j id f d ∙ if-false _ _ other)

  pub shown_at-map :
      (id : String) (f : NodeReport F → NodeReport F) (d : Dict (NodeReport F)) (a : A)
      → ((report : NodeReport F) → view report ≡ a → view (f report) ≡ a)
      → shown_at id d ≡ some a
      → shown_at id (each_value f d) ≡ some a
  unfolding shown_at
  shown_at-map id f d a keeps h =
      ap (Option.map view) (get-each_value id f d) ∙ map-change f (get id d) a keeps h

  pub shown_at-change :
      (j id : String) (f : NodeReport F → NodeReport F) (d : Dict (NodeReport F)) (a : A)
      → ((report : NodeReport F) → view report ≡ a → view (f report) ≡ a)
      → shown_at id d ≡ some a
      → shown_at id (change j f d) ≡ some a
  unfolding shown_at
  shown_at-change j id f d a keeps h = elim (Bool-cases (j == id)) [
    | inr e ↦ shown_at-other j id f d e ∙ h
    | inl e ↦
        ap (Option.map view) (get-change j id f d ∙ if-true _ _ e)
        ∙ map-change f (get id d) a keeps h
  ]

module _ {F : Type 0} where
  clash :
      (o : Option (NodeReport F))
      → has_status is_settled o ≡ true
      → (has_status is_pending o ≡ false) × (has_status is_running o ≡ false)
  clash none h = cc
  clash (some report) h = (settled-pending report.status h, settled-running report.status h)

  cancel_pending-settled :
      (report : NodeReport F) → is_settled report.status ≡ true → cancel_pending report ≡ report
  unfolding cancel_pending
  cancel_pending-settled report h = rw (cancel_pending, settled-pending report.status h) refl

module _ {F A : Type 0} (id : String) (v : Option (Option (Value F))) (view : NodeReport F → A)
    (a : A) where
  -- The node's report shows this, and reads of the node find this value, if any.
  unfoldable pub Stands : Run F → Type 0
  Stands r = (shown_at view id r.reports ≡ some a) × (get id r.values ≡ v)

  module _ (lasting : IsLasting view a) where
    -- A node that is still to start, or in flight, is another.
    pub pending-apart :
        (j : String) (r : Run F)
        → Stands r
        → has_status is_pending (get j r.reports) ≡ true
        → (j == id) ≡ false
    unfolding Stands shown_at
    pending-apart j r (h, e) has = elim (Bool-cases (j == id)) [
      | inr c ↦ c
      | inl c ↦
          let here =
            (clash (get id r.reports) (report-settled view a lasting (get id r.reports) h)).0 in
          let other = rw ((eq_iff j id).0 c) at has in cc
    ]

    pub running-apart :
        (j : String) (r : Run F)
        → Stands r
        → has_status is_running (get j r.reports) ≡ true
        → (j == id) ≡ false
    unfolding Stands shown_at
    running-apart j r (h, e) has = elim (Bool-cases (j == id)) [
      | inr c ↦ c
      | inl c ↦
          let here =
            (clash (get id r.reports) (report-settled view a lasting (get id r.reports) h)).1 in
          let other = rw ((eq_iff j id).0 c) at has in cc
    ]

    pub end_as-Stands : (how : Ending) (r : Run F) → Stands r → Stands (end_as how r)
    unfolding Stands end_as
    end_as-Stands how r (h, e) = (
      shown_at-map view id cancel_pending r.reports a
          (λ report is. ap view (cancel_pending-settled report (lasting.settled report is)) ∙ is) h,
      e,
    )

    pub release-Stands : (j : String) (r : Run F) → Stands r → Stands (release j r)
    unfolding Stands release
    release-Stands j r (h, e) =
        elim (Bool-cases (some_of (λ (_, report). names_it j report.caught) r.reports)) [
          | inr c ↦ rw (release, c) (h, e)
          | inl c ↦
              rw (release, c)
                (end_as-Stands run_failed (record r { reports = each_value (let_go j) r.reports })
                  (shown_at-map view id (let_go j) r.reports a (lasting.kept j) h, e))
        ]

    pub in_turn-Stands :
        (f : String → Run F → Run F) (ids : List String) (r : Run F)
        → ((j : String) (r : Run F) → Stands r → Stands (f j r))
        → Stands r
        → Stands (in_turn f ids r)
    in_turn-Stands f [] r keeps h = h
    in_turn-Stands f (j ∷ ids) r keeps h = in_turn-Stands f ids (f j r) keeps (keeps j r h)

    pub cancel-Stands :
        (n : ℕ) (dependents : Dict (List String)) (j : String) (r : Run F)
        → Stands r
        → Stands (cancel n dependents j r)
    unfolding cancel Stands
    cancel-Stands zero dependents j r h = h
    cancel-Stands (suc n) dependents j r (h, e) =
        elim (Bool-cases (has_status is_pending (get j r.reports))) [
          | inr c ↦ rw (cancel, c) (h, e)
          | inl c ↦
              let other = pending-apart j r (h, e) c in
              let marked = record r { reports = change j (mark cancelled) r.reports } in
              let stands : Stands marked =
                (shown_at-other view j id (mark cancelled) r.reports other ∙ h, e) in
              rw (cancel, c)
                (release-Stands j (in_turn (cancel n dependents) (members j dependents) marked) (
                  in_turn-Stands (cancel n dependents) (members j dependents) marked
                    (cancel-Stands n dependents) stands))
        ]

    pub cancel_others-Stands :
        (g : Graph F) (selected : String) (targets : List String) (r : Run F)
        → Stands r
        → Stands (cancel_others g selected targets r)
    unfolding cancel_others
    cancel_others-Stands g selected [] r h = h
    cancel_others-Stands g selected (target ∷ rest) r h =
        let next =
          if target == selected
          then r
          else cancel (length r.reports) (plan_of g.nodes).dependents target r in
        let stands : Stands next = elim (Bool-cases (target == selected)) [
          | inl c ↦ rw c h
          | inr c ↦ rw c (cancel-Stands (length r.reports) (plan_of g.nodes).dependents target r h)
        ] in
        cancel_others-Stands g selected rest next stands
