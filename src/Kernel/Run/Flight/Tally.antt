-- ===== src/Kernel/Run/Flight/Tally.antt =====
-- packages/engine/src/run.ts: the nodes in flight and the places of those that settled, as moves count them.
use wilanis_js.Common.{
  ℕ, zero, suc, ◌-◌, ◌≡◌, refl, ap, ◌∙◌, sym, String, Bool, true, false, ◌||◌, ◌&&◌, arith,
}
use wilanis_js.Common.{Option, none, some, Bool-cases, inl, inr, leb, nat_eq}
use wilanis_js.Common.{some_of}
use wilanis_js.Common.Dict.{get}
use wilanis_js.Kernel.Run.{
  Run, NodeReport, Status, pending, running, cancelled, done, failed, seeded,
}
use wilanis_js.Kernel.Run.{is_pending, is_running, change, each_value, mark}
use wilanis_js.Kernel.Run.{end_as, release, cancel_pending, let_go, Ending}
use wilanis_js.Kernel.Run.{run_failed, names_it}
use wilanis_js.Kernel.Run.Cancel.{one_if}
use wilanis_js.Kernel.Run.Moves.{is_idle}
use wilanis_js.Kernel.Run.Count.{count, count-same, count-each, Each, Each-change}
use wilanis_js.Kernel.Run.Count.{each_value-Each}

unfoldable pub has_ended : Status → Bool
has_ended done = true
has_ended failed = true
has_ended pending = false
has_ended running = false
has_ended cancelled = false
has_ended seeded = false

-- In flight: started, and its `finally` is still to come.
unfoldable pub flying : Status → Option ℕ → Bool
unfolding is_running has_ended
flying s none = is_running s || has_ended s
flying s (some order) = is_running s

pub ended_running : (s : Status) → is_running s ≡ true → has_ended s ≡ false
unfolding is_running has_ended
ended_running running h = refl
ended_running pending h = refl
ended_running cancelled h = refl
ended_running seeded h = refl
ended_running done h = cc
ended_running failed h = cc

pub ended-not_both : (s : Status) → has_ended s ≡ true → has_ended s ≡ false → ⊥
ended-not_both s h e = cc

ended-not_running : (s : Status) → has_ended s ≡ true → is_running s ≡ false
unfolding is_running has_ended
ended-not_running done h = refl
ended-not_running failed h = refl
ended-not_running pending h = cc
ended-not_running running h = cc
ended-not_running cancelled h = cc
ended-not_running seeded h = cc

pub ended_idle : (s : Status) → is_idle s ≡ true → (has_ended s ≡ false) × (is_running s ≡ false)
unfolding is_idle has_ended is_running
ended_idle pending h = (refl, refl)
ended_idle cancelled h = (refl, refl)
ended_idle running h = cc
ended_idle seeded h = cc
ended_idle done h = cc
ended_idle failed h = cc

ended_pending : (s : Status) → is_pending s ≡ true → (has_ended s ≡ false) × (is_running s ≡ false)
unfolding is_pending has_ended is_running
ended_pending pending h = (refl, refl)
ended_pending cancelled h = cc
ended_pending running h = cc
ended_pending seeded h = cc
ended_pending done h = cc
ended_pending failed h = cc

pub flying-false :
    (s : Status) (o : Option ℕ) → has_ended s ≡ false → is_running s ≡ false → flying s o ≡ false
unfolding flying
flying-false s none h k = ground arith
flying-false s (some order) h k = k

pub flying-running : (o : Option ℕ) → flying running o ≡ true
unfolding flying is_running
flying-running none = refl
flying-running (some order) = refl

pub flying-ended : (s : Status) → has_ended s ≡ true → flying s none ≡ true
unfolding flying
flying-ended s h = ground arith

pub landed : (s : Status) (n : ℕ) → has_ended s ≡ true → flying s (some n) ≡ false
unfolding flying
landed s n h = ended-not_running s h

pub flying-none :
    (s t : Status)
    → (is_running s || has_ended s) ≡ true
    → (is_running t || has_ended t) ≡ true
    → flying s none ≡ flying t none
unfolding flying
flying-none s t h k = h ∙ sym k

pub settling-ended :
    (s : Status) (o : Option ℕ)
    → (elim o [ some n ↦ false | none ↦ elim s [ done ↦ true | failed ↦ true | _ ↦ false ] ]) ≡ true
    → (o ≡ none) × (has_ended s ≡ true)
unfolding has_ended
settling-ended s (some n) h = cc
settling-ended done none h = (refl, refl)
settling-ended failed none h = (refl, refl)
settling-ended pending none h = cc
settling-ended running none h = cc
settling-ended cancelled none h = cc
settling-ended seeded none h = cc

pub one_fewer : (n : ℕ) → (elim n [ zero ↦ 0 | suc m ↦ m ]) ≡ n - 1
one_fewer zero = omega arith
one_fewer (suc n) = omega arith

module _ {F : Type 0} where
  unfoldable pub in_flight : NodeReport F → Bool
  unfolding flying
  in_flight report = flying report.status report.order

  unfoldable pub has_place : ℕ → NodeReport F → Bool
  has_place k report = elim report.order [ none ↦ false | some order ↦ nat_eq order k ]

  -- No place was taken before the node ended.
  abbrev pub IsPlaced : NodeReport F → Type 0
  IsPlaced report = has_ended report.status ≡ false → report.order ≡ none

  -- As many nodes are in flight as `running` says, and each place up to `settles` is one node's.
  unfoldable pub IsTallied : Run F → Type 0
  unfolding in_flight has_place
  IsTallied r =
      Each IsPlaced r.reports
      × (r.running ≡ count in_flight r.reports)
      × ((k : ℕ) → count (has_place k) r.reports ≡ one_if (leb 1 k && leb k r.settles))

  -- A write that leaves a report as it is, as far as it is tallied.
  abbrev pub IsSame : NodeReport F → NodeReport F → Type 0
  IsSame was now =
      (in_flight now ≡ in_flight was) × (now.order ≡ was.order) × (IsPlaced was → IsPlaced now)

  same_place :
      (k : ℕ) (was now : NodeReport F) → now.order ≡ was.order → has_place k now ≡ has_place k was
  unfolding has_place
  same_place k was now h =
      ap (λ (o : Option ℕ). elim o [ none ↦ false | some order ↦ nat_eq order k ]) h

  each-IsTallied :
      (f : NodeReport F → NodeReport F) (r : Run F) (e : Option Ending)
      → ((report : NodeReport F) → IsSame report (f report))
      → IsTallied r
      → IsTallied (record r { reports = each_value f r.reports; ending = e })
  unfolding IsTallied
  each-IsTallied f r e same (placed, flies, places) = (
    each_value-Each IsPlaced f r.reports (λ report. (same report).2) placed,
    flies ∙ sym (count-each in_flight f r.reports (λ report. (same report).0)),
    λ k.
        count-each (has_place k) f r.reports
          (λ report. same_place k report (f report) (same report).1)
        ∙ places k,
  )

  pub change-IsTallied :
      (id : String) (f : NodeReport F → NodeReport F) (r : Run F)
      → ((report : NodeReport F) → get id r.reports ≡ some report → IsSame report (f report))
      → IsTallied r
      → IsTallied (record r { reports = change id f r.reports })
  unfolding IsTallied
  change-IsTallied id f r same (placed, flies, places) = (
    Each-change IsPlaced id f r.reports (λ report h. (same report h).2) placed,
    flies ∙ sym (count-same in_flight id f r.reports (λ report h. (same report h).0)),
    λ k.
        count-same (has_place k) id f r.reports
          (λ report h. same_place k report (f report) (same report h).1)
        ∙ places k,
  )

  pub cancel-IsSame :
      (report : NodeReport F)
      → is_pending report.status ≡ true
      → IsSame report (mark cancelled report)
  unfolding in_flight has_ended is_running
  cancel-IsSame report e =
      let (not_ended, not_running) = ended_pending report.status e in
      (
        flying-false cancelled report.order refl refl
            ∙ sym (flying-false report.status report.order not_ended not_running),
        refl,
        λ placed h. placed not_ended,
      )

  cancel_pending-IsSame : (report : NodeReport F) → IsSame report (cancel_pending report)
  unfolding cancel_pending
  cancel_pending-IsSame report = elim (Bool-cases (is_pending report.status)) [
    | inl e ↦ rw (cancel_pending, e) (cancel-IsSame report e)
    | inr e ↦ rw (cancel_pending, e) (refl, refl, λ placed. placed)
  ]

  let_go-IsSame : (id : String) (report : NodeReport F) → IsSame report (let_go id report)
  unfolding let_go in_flight
  let_go-IsSame id report = elim (Bool-cases (names_it id report.caught)) [
    | inl e ↦ rw (let_go, e) (refl, refl, λ placed. placed)
    | inr e ↦ rw (let_go, e) (refl, refl, λ placed. placed)
  ]

  pub end_as-IsTallied : (how : Ending) (r : Run F) → IsTallied r → IsTallied (end_as how r)
  unfolding end_as
  end_as-IsTallied how r h = each-IsTallied cancel_pending r _ cancel_pending-IsSame h

  pub release-IsTallied : (id : String) (r : Run F) → IsTallied r → IsTallied (release id r)
  unfolding release
  release-IsTallied id r h =
      elim (Bool-cases (some_of (λ (_, report). names_it id report.caught) r.reports)) [
        | inr c ↦ rw (release, c) h
        | inl c ↦
            rw (release, c)
              (end_as-IsTallied run_failed (record r { reports = each_value (let_go id) r.reports })
                (each-IsTallied (let_go id) r r.ending (let_go-IsSame id) h))
      ]
