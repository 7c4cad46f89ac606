-- ===== src/Kernel/Run/Cancel.antt =====
-- packages/engine/src/run.ts: the cancelling of a node and of what waits for it comes to an end.
use wilanis_js.Common.{
  ℕ, zero, suc, ◌+◌, ◌≤◌, ◌≡◌, refl, ap, ◌∙◌, sym, String, Bool, true, false, ◌==◌, length, arith,
}
use wilanis_js.Common.{List, [], ◌∷◌, some_of, if◌then◌else◌, Bool-cases}
use wilanis_js.Common.{inl, inr}
use wilanis_js.Common.Dict.{Dict, get}
use wilanis_js.Kernel.Plan.{members}
use wilanis_js.Kernel.Run.{Run, NodeReport, cancelled}
use wilanis_js.Kernel.Run.{Ending, is_pending, has_status, change, each_value, mark, cancel_pending}
use wilanis_js.Kernel.Run.{end_as, release, cancel, in_turn, names_it, let_go, run_failed}

abbrev pub one_if : Bool → ℕ
one_if true = 1
one_if false = 0

module _ {F : Type 0} where
  -- How many nodes are still to start.
  unfoldable pub pendings : Dict (NodeReport F) → ℕ
  unfolding is_pending
  pendings [] = 0
  pendings ((_, report) ∷ rest) = one_if (is_pending report.status) + pendings rest

  pub pendings-length : (d : Dict (NodeReport F)) → pendings d ≤ length d
  unfolding pendings
  pendings-length [] = omega arith
  pendings-length ((k, report) ∷ rest) = ground (arith, pendings-length rest)

  -- A report written in its place, once it was pending and is no more.
  pub pendings-change :
      (id : String) (f : NodeReport F → NodeReport F) (d : Dict (NodeReport F))
      → ((report : NodeReport F) → is_pending (f report).status ≡ false)
      → one_if (has_status is_pending (get id d)) + pendings (change id f d) ≡ pendings d
  unfolding pendings change get
  pendings-change id f [] gone = refl
  pendings-change id f ((k, report) ∷ rest) gone = elim (Bool-cases (k == id)) [
    | inl e ↦ rw (e, gone report) (omega arith)
    | inr e ↦ rw e (let tail = pendings-change id f rest gone in omega (arith, tail))
  ]

  pub pendings-map :
      (f : NodeReport F → NodeReport F) (d : Dict (NodeReport F))
      → ((report : NodeReport F)
          → is_pending report.status ≡ false
          → is_pending (f report).status ≡ false)
      → pendings (each_value f d) ≤ pendings d
  unfolding pendings
  pendings-map f [] keeps = omega arith
  pendings-map f ((k, report) ∷ rest) keeps = elim (Bool-cases (is_pending report.status)) [
    | inl e ↦ ground (arith, pendings-map f rest keeps)
    | inr e ↦ ground (arith, pendings-map f rest keeps, keeps report e)
  ]

  cancel_pending-gone :
      (report : NodeReport F)
      → is_pending report.status ≡ false
      → is_pending (cancel_pending report).status ≡ false
  unfolding cancel_pending
  cancel_pending-gone report e = rw e e

  pub end_as-pendings :
      (how : Ending) (r : Run F) → pendings (end_as how r).reports ≤ pendings r.reports
  unfolding end_as
  end_as-pendings how r = pendings-map cancel_pending r.reports cancel_pending-gone

  pub let_go-status :
      (id : String) (report : NodeReport F) → (let_go id report).status ≡ report.status
  unfolding let_go
  let_go-status id report = elim (Bool-cases (names_it id report.caught)) [
    | inl c ↦ rw c refl
    | inr c ↦ rw c refl
  ]

  pub release-pendings :
      (id : String) (r : Run F) → pendings (release id r).reports ≤ pendings r.reports
  unfolding release
  release-pendings id r =
      elim (Bool-cases (some_of (λ (_, report). names_it id report.caught) r.reports)) [
        | inr e ↦ rw (release, e) (omega arith)
        | inl e ↦
            rw (release, e)
              (let released =
                  pendings-map (let_go id) r.reports
                    (λ report h. ap is_pending (let_go-status id report) ∙ h) in
                let ended =
                  end_as-pendings run_failed
                    (record r { reports = each_value (let_go id) r.reports }) in
                omega arith)
      ]

  in_turn-pendings :
      (f : String → Run F → Run F) (ids : List String) (r : Run F)
      → ((id : String) (r : Run F) → pendings (f id r).reports ≤ pendings r.reports)
      → pendings (in_turn f ids r).reports ≤ pendings r.reports
  in_turn-pendings f [] r h = omega arith
  in_turn-pendings f (id ∷ ids) r h =
      let here = h id r in let later = in_turn-pendings f ids (f id r) h in omega arith

  pub change-pendings :
      (id : String) (f : NodeReport F → NodeReport F) (d : Dict (NodeReport F))
      → ((report : NodeReport F) → is_pending (f report).status ≡ false)
      → pendings (change id f d) ≤ pendings d
  change-pendings id f d gone = let one = pendings-change id f d gone in omega arith

  mark-cancelled : (report : NodeReport F) → is_pending (mark cancelled report).status ≡ false
  unfolding is_pending
  mark-cancelled report = refl

  module _ (dependents : Dict (List String)) where
    pub cancel-pendings :
        (n : ℕ) (id : String) (r : Run F)
        → pendings (cancel n dependents id r).reports ≤ pendings r.reports
    unfolding cancel
    cancel-pendings zero id r = omega arith
    cancel-pendings (suc n) id r = elim (Bool-cases (has_status is_pending (get id r.reports))) [
      | inr e ↦ rw (cancel, e) (omega arith)
      | inl e ↦
          rw (cancel, e)
            (let marked = record r { reports = change id (mark cancelled) r.reports } in
              let one = change-pendings id (mark cancelled) r.reports mark-cancelled in
              let others =
                in_turn-pendings (cancel n dependents) (members id dependents) marked
                  (cancel-pendings n) in
              let last =
                release-pendings id
                  (in_turn (cancel n dependents) (members id dependents) marked) in
              omega arith)
    ]

    in_turn-alike :
        (f g : String → Run F → Run F) (n : ℕ) (ids : List String) (r : Run F)
        → ((id : String) (r : Run F) → pendings (f id r).reports ≤ pendings r.reports)
        → ((id : String) (r : Run F) → pendings r.reports ≤ n → f id r ≡ g id r)
        → pendings r.reports ≤ n
        → in_turn f ids r ≡ in_turn g ids r
    in_turn-alike f g n [] r less same h = refl
    in_turn-alike f g n (id ∷ ids) r less same h =
        let here = less id r in
        in_turn-alike f g n ids (f id r) less same (omega arith) ∙ ap (in_turn g ids) (same id r h)

    one-less :
        (n : ℕ) (id : String) (r : Run F)
        → pendings r.reports ≤ suc n
        → has_status is_pending (get id r.reports) ≡ true
        → pendings (change id (mark cancelled) r.reports) ≤ n
    one-less n id r h e =
        let counted = rw e at (pendings-change id (mark cancelled) r.reports mark-cancelled) in
        omega arith

    still :
        (n : ℕ) (id : String) (r : Run F)
        → has_status is_pending (get id r.reports) ≡ false
        → cancel n dependents id r ≡ r
    unfolding cancel
    still zero id r e = refl
    still (suc n) id r e = rw (cancel, e) refl

    moves :
        (n : ℕ) (id : String) (r : Run F)
        → has_status is_pending (get id r.reports) ≡ true
        → cancel (suc n) dependents id r
          ≡ release id (
              in_turn
                (cancel n dependents)
                (members id dependents)
                (record r { reports = change id (mark cancelled) r.reports }))
    unfolding cancel
    moves n id r e = rw (cancel, e) refl

    -- A round for each pending node is enough: more change nothing.
    cancel-more :
        (n : ℕ) (id : String) (r : Run F)
        → pendings r.reports ≤ n
        → cancel (suc n) dependents id r ≡ cancel n dependents id r
    cancel-more zero id r h = elim (Bool-cases (has_status is_pending (get id r.reports))) [
      | inr e ↦ still (suc zero) id r e ∙ sym (still zero id r e)
      | inl e ↦
          let counted = rw e at (pendings-change id (mark cancelled) r.reports mark-cancelled) in
          absurd (omega arith)
    ]
    cancel-more (suc n) id r h = elim (Bool-cases (has_status is_pending (get id r.reports))) [
      | inr e ↦ still (suc (suc n)) id r e ∙ sym (still (suc n) id r e)
      | inl e ↦
          moves (suc n) id r e
          ∙ ap (release id) (
              in_turn-alike (cancel (suc n) dependents) (cancel n dependents) n
                (members id dependents)
                (record r { reports = change id (mark cancelled) r.reports })
                (cancel-pendings (suc n)) (cancel-more n) (one-less n id r h e))
          ∙ sym (moves n id r e)
    ]

    -- Given a round for each pending node, `cancel` does what the source's recursion, which has no bound, says.
    pub cancel-whole :
        (n : ℕ) (id : String) (r : Run F)
        → pendings r.reports ≤ n
        → cancel n dependents id r ≡ (
            if has_status is_pending (get id r.reports)
            then release id (
                in_turn
                  (cancel n dependents)
                  (members id dependents)
                  (record r { reports = change id (mark cancelled) r.reports }))
            else r)
    cancel-whole n id r h = elim (Bool-cases (has_status is_pending (get id r.reports))) [
      | inr e ↦ rw e (still n id r e)
      | inl e ↦ rw e (sym (cancel-more n id r h) ∙ moves n id r e)
    ]
