-- ===== src/Kernel/Run/Ends/Release.antt =====
-- packages/engine/src/run.ts: what ending a run and letting a caught fault go leave of a run.
use wilanis_js.Common.{◌≤◌, ◌≡◌, refl, ◌∙◌, sym, String, Bool, true, false, ◌&&◌, not, arith}
use wilanis_js.Common.{Option, none, some, [], ◌∷◌, Bool-cases, inl, inr}
use wilanis_js.Common.{some_of, if-true, if-false}
use wilanis_js.Common.Dict.{Dict, get}
use mathlib.Core.Path.{subst}
use wilanis_js.Kernel.Run.{
  Run, NodeReport, Status, pending, running, cancelled, done, failed, seeded,
}
use wilanis_js.Kernel.Run.{is_pending, is_running, change, each_value, mark, run_cancelled}
use wilanis_js.Kernel.Run.{end_as, cancel_pending, let_go, Ending, or_else}
use wilanis_js.Kernel.Run.{run_failed, names_it, is_there, initial_report}
use wilanis_js.Kernel.Run.Moves.{is_idle}
use wilanis_js.Kernel.Run.Count.{count, count-same, count-each, count-less}
use wilanis_js.Kernel.Run.Count.{count-none, Each, Each-change, each_value-Each}

unfoldable pub is_failed : Status → Bool
is_failed failed = true
is_failed pending = false
is_failed running = false
is_failed s = false

pending_failed : (s : Status) → is_pending s ≡ true → is_failed s ≡ false
unfolding is_failed is_pending
pending_failed pending h = refl
pending_failed cancelled h = refl
pending_failed running h = cc
pending_failed seeded h = refl
pending_failed done h = refl
pending_failed failed h = cc

pub idle_failed : (s : Status) → is_idle s ≡ true → is_failed s ≡ false
unfolding is_failed is_idle
idle_failed pending h = refl
idle_failed cancelled h = refl
idle_failed running h = cc
idle_failed seeded h = refl
idle_failed done h = refl
idle_failed failed h = cc

pub running_failed :
    (s : Status) → is_running s ≡ true → (is_failed s ≡ false) × (is_pending s ≡ false)
unfolding is_failed is_running is_pending
running_failed running h = (refl, refl)
running_failed pending h = cc
running_failed cancelled h = cc
running_failed seeded h = cc
running_failed done h = cc
running_failed failed h = cc

pub stop-why :
    (o : Option Ending) → or_else o (some run_cancelled) ≡ some run_failed → o ≡ some run_failed
stop-why none e = cc
stop-why (some other) e = e

or_else-some : (o : Option Ending) (how : Ending) → or_else o (some how) ≡ none → ⊥
or_else-some none how e = cc
or_else-some (some other) how e = cc

pub initial_failed :
    (F : Type 0) (given : Bool) → is_failed (initial_report {F = F} given).status ≡ false
unfolding is_failed initial_report
initial_failed F true = refl
initial_failed F false = refl

module _ {F : Type 0} where
  -- A node that failed, with a fault that no switch holds.
  unfoldable pub is_uncaught : NodeReport F → Bool
  is_uncaught report = is_failed report.status && not (is_there report.caught)

  unfoldable pub waits : NodeReport F → Bool
  waits report = is_pending report.status

  -- Only a fault is caught.
  abbrev pub IsCaughtFault : NodeReport F → Type 0
  IsCaughtFault report = is_failed report.status ≡ false → report.caught ≡ none

  -- A run has ended as failed only where a node's failure stands, it goes on only where none does, and
  -- one that has ended leaves no node pending.
  abbrev pub IsExplained : Option Ending → Dict (NodeReport F) → Type 0
  IsExplained ending d =
      (ending ≡ some run_failed → 1 ≤ count is_uncaught d)
      × (ending ≡ none → count is_uncaught d ≡ 0)
      × (is_there ending ≡ true → count waits d ≡ 0)

  unfoldable pub Ends : Run F → Type 0
  Ends r = Each IsCaughtFault r.reports × IsExplained r.ending r.reports

  -- A write that leaves failures as they are and makes no node wait.
  abbrev pub IsMild : NodeReport F → NodeReport F → Type 0
  IsMild was now =
      (is_uncaught now ≡ is_uncaught was)
      × (waits now ≡ true → waits was ≡ true)
      × (IsCaughtFault was → IsCaughtFault now)

  IsExplained-same :
      (ending : Option Ending) (d d' : Dict (NodeReport F))
      → count is_uncaught d' ≡ count is_uncaught d
      → count waits d' ≤ count waits d
      → IsExplained ending d
      → IsExplained ending d'
  IsExplained-same ending d d' same less (failed_one, no_fault, no_wait) = (
    λ e. let one = failed_one e in omega arith,
    λ e. same ∙ no_fault e,
    λ e. let zero_waits = no_wait e in omega arith,
  )

  pub change-Ends :
      (id : String) (f : NodeReport F → NodeReport F) (r : Run F)
      → ((report : NodeReport F) → get id r.reports ≡ some report → IsMild report (f report))
      → Ends r
      → Ends (record r { reports = change id f r.reports })
  unfolding Ends
  change-Ends id f r mild (caught, explained) = (
    Each-change IsCaughtFault id f r.reports (λ report h. (mild report h).2) caught,
    IsExplained-same r.ending r.reports (change id f r.reports)
        (count-same is_uncaught id f r.reports (λ report h. (mild report h).0))
        (count-less waits id f r.reports (λ report h. (mild report h).1)) explained,
  )

  -- A report that has not failed, written as another that has not.
  pub quiet-IsMild :
      (was now : NodeReport F)
      → is_failed was.status ≡ false
      → is_failed now.status ≡ false
      → now.caught ≡ was.caught
      → is_pending now.status ≡ false
      → IsMild was now
  unfolding is_uncaught waits
  quiet-IsMild was now h k same no_wait = (ground arith, λ e. cc, λ caught e. same ∙ caught h)

  pub cancel-IsMild :
      (report : NodeReport F)
      → is_pending report.status ≡ true
      → IsMild report (mark cancelled report)
  unfolding is_failed is_pending
  cancel-IsMild report e =
      quiet-IsMild report (mark cancelled report) (pending_failed report.status e) refl refl refl

  cancel_pending-IsMild : (report : NodeReport F) → IsMild report (cancel_pending report)
  unfolding cancel_pending
  cancel_pending-IsMild report = elim (Bool-cases (is_pending report.status)) [
    | inl e ↦ subst (IsMild report) (sym (if-true _ _ e)) (cancel-IsMild report e)
    | inr e ↦ subst (IsMild report) (sym (if-false _ _ e)) (refl, λ h. h, λ h. h)
  ]

  cancel_pending-waits : (report : NodeReport F) → waits (cancel_pending report) ≡ false
  unfolding cancel_pending waits is_pending
  cancel_pending-waits report = elim (Bool-cases (is_pending report.status)) [
    | inl e ↦ rw (cancel_pending, e) refl
    | inr e ↦ rw (cancel_pending, e) e
  ]

  -- A run ends as it is told, or as it had ended.
  pub end_as-Ends :
      (how : Ending) (r : Run F)
      → Each IsCaughtFault r.reports
      → (or_else r.ending (some how) ≡ some run_failed → 1 ≤ count is_uncaught r.reports)
      → Ends (end_as how r)
  unfolding Ends end_as
  end_as-Ends how r caught why = (
    each_value-Each IsCaughtFault cancel_pending r.reports
        (λ report. (cancel_pending-IsMild report).2) caught,
    (
      λ e.
          let one = why e in
          let same =
            count-each is_uncaught cancel_pending r.reports
              (λ report. (cancel_pending-IsMild report).0) in
          omega arith,
      λ e. absurd (or_else-some r.ending how e),
      λ e. count-none waits cancel_pending r.reports cancel_pending-waits,
    ),
  )

  let_go-caught :
      (id : String) (report : NodeReport F)
      → is_uncaught report ≡ true
      → is_uncaught (let_go id report) ≡ true
  unfolding let_go is_uncaught
  let_go-caught id report h = elim (Bool-cases (names_it id report.caught)) [
    | inl c ↦ rw (let_go, c) (ground arith)
    | inr c ↦ rw (let_go, c) h
  ]

  pub let_go-IsCaughtFault :
      (id : String) (report : NodeReport F)
      → IsCaughtFault report
      → IsCaughtFault (let_go id report)
  unfolding let_go
  let_go-IsCaughtFault id report h = elim (Bool-cases (names_it id report.caught)) [
    | inl c ↦ subst IsCaughtFault (sym (if-true _ _ c)) (λ e. refl)
    | inr c ↦ subst IsCaughtFault (sym (if-false _ _ c)) h
  ]

  -- A fault that is let go stands.
  let_go-uncaught :
      (id : String) (report : NodeReport F)
      → IsCaughtFault report
      → names_it id report.caught ≡ true
      → is_uncaught (let_go id report) ≡ true
  unfolding let_go is_uncaught
  let_go-uncaught id report h e =
      rw (let_go, e)
        (elim (Bool-cases (is_failed report.status)) [
          | inl c ↦ rw c refl
          | inr c ↦ (let gone = rw (h c) at e in cc)
        ])

  pub released-count :
      (id : String) (d : Dict (NodeReport F))
      → Each IsCaughtFault d
      → some_of (λ (_, report). names_it id report.caught) d ≡ true
      → 1 ≤ count is_uncaught (each_value (let_go id) d)
  unfolding count
  released-count id [] caught h = cc
  released-count id ((k, report) ∷ rest) caught h = elim (Bool-cases (names_it id report.caught)) [
    | inl e ↦ rw (let_go-uncaught id report caught.0 e) (omega arith)
    | inr e ↦ let tail = released-count id rest caught.1 (rw e at h) in omega arith
  ]
