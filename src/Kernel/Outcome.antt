-- ===== src/Kernel/Outcome.antt =====
-- packages/engine/src/kernel.ts: a failed run is answered for by a node that failed.
use wilanis_js.Common.{
  ◌≤◌, ◌≡◌, refl, ap, ◌∙◌, sym, String, Bool, true, false, not, ◌==◌, ◌||◌, ◌&&◌, arith,
}
use wilanis_js.Common.{Option, none, some, List, [], ◌∷◌, Bool-cases, inl, inr, eq_iff}
use wilanis_js.Common.{some_of, Option-cases}
use wilanis_js.Common.Dict.{Dict, IsDistinct}
use mathlib.Core.Path.{subst}
use mathlib.Core.Option.{some-injective}
use wilanis_js.Types.{Value, Floats}
use wilanis_js.Expr.{Coercions}
use wilanis_js.Kernel.Run.{Graph, NodeReport, names_it, is_there, fresh, run, run_failed, Event}
use wilanis_js.Kernel.Run.Count.{count}
use wilanis_js.Kernel.Run.Ends.{is_failed, is_uncaught, run-IsExplained}
use wilanis_js.Kernel.Run.Cancel.{one_if}
use wilanis_js.Kernel.Report.{Outcome, answered, refused, faulted, find_first}
use wilanis_js.Kernel.Report.{
  insert_settled, settled_before, failed_nodes, is_refusal, is_fault, or_given,
}
use wilanis_js.Kernel.Report.{ended_at_node, failure, outcome_of, report_of}

find_first-found {ℓ} :
    {A : Type ℓ} (test : A → Bool) (xs : List A) (a : A)
    → find_first test xs ≡ some a
    → (test a ≡ true) × ((q : A → Bool) → q a ≡ true → some_of q xs ≡ true)
find_first-found test [] a h = cc
find_first-found test (x ∷ xs) a h = elim (Bool-cases (test x)) [
  | inl e ↦
      let same : x ≡ a = some-injective x a (rw e at h) in
      (
        rw same at e,
        λ q yes. let here : q x ≡ true = subst (λ z. q z ≡ true) (sym same) yes in ground arith,
      )
  | inr e ↦
      let (passes, among) = find_first-found test xs a (rw e at h) in
      (passes, λ q yes. let there = among q yes in ground arith)
]

find_first-none {ℓ} :
    {A : Type ℓ} (test : A → Bool) (xs : List A)
    → find_first test xs ≡ none
    → some_of test xs ≡ false
find_first-none test [] h = refl
find_first-none test (x ∷ xs) h = elim (Bool-cases (test x)) [
  | inl e ↦ (let gone = rw e at h in cc)
  | inr e ↦ let later = find_first-none test xs (rw e at h) in ground arith
]

some_of-either :
    {A : Type 0} (p q t : A → Bool) (xs : List A)
    → ((a : A) → p a ≡ true → (q a || t a) ≡ true)
    → some_of p xs ≡ true
    → some_of q xs ≡ false
    → some_of t xs ≡ true
some_of-either p q t [] less h no_q = h
some_of-either p q t (x ∷ xs) less h no_q = elim (Bool-cases (p x)) [
  | inl e ↦ let here = less x e in ground arith
  | inr e ↦ let later = some_of-either p q t xs less (rw e at h) (ground arith) in ground arith
]

same_text : (text : String) → (text == text) ≡ true
same_text text = (eq_iff text text).1 refl

given_name : (o : Option String) → is_there o ≡ true → names_it (or_given o "") o ≡ true
given_name none h = cc
given_name (some text) h = same_text text

module _ {F : Type 0} where
  insert_settled-some :
      (q : String × NodeReport F → Bool) (entry : String × NodeReport F)
      (xs : List (String × NodeReport F))
      → some_of q (insert_settled entry xs) ≡ (q entry || some_of q xs)
  unfolding insert_settled
  insert_settled-some q entry [] = refl
  insert_settled-some q entry (other ∷ xs) = elim (Bool-cases (settled_before other.1 entry.1)) [
    | inl e ↦ rw e (let later = insert_settled-some q entry xs in ground arith)
    | inr e ↦ rw e refl
  ]

  -- The nodes that failed are those of the report that did.
  failed_nodes-some :
      (q : String × NodeReport F → Bool) (nodes : Dict (NodeReport F))
      → some_of q (failed_nodes nodes)
        ≡ some_of (λ entry. is_failed entry.1.status && q entry) nodes
  unfolding failed_nodes
  failed_nodes-some q [] = refl
  failed_nodes-some q ((id, report) ∷ rest) = elim (Bool-cases (is_failed report.status)) [
    | inl e ↦ rw e (
        insert_settled-some q (id, report) (failed_nodes rest)
        ∙ ap (λ b. q (id, report) || b) (failed_nodes-some q rest))
    | inr e ↦ rw e (failed_nodes-some q rest)
  ]

  -- The outcome names this node: with the reason and the words of its refusal, or, of a node that did not
  -- refuse and whose fault no switch holds, with the words of the fault.
  unfoldable pub is_named : Outcome F → String × NodeReport F → Bool
  is_named (refused reason message detail at) (id, report) =
      (id == at)
      && names_it reason report.reason
      && (elim report.error [ none ↦ "" | some words ↦ words ] == message)
  is_named (faulted at error) (id, report) =
      (id == at)
      && not (is_there report.reason)
      && not (is_there report.caught)
      && (elim report.error [ none ↦ "failed" | some words ↦ words ] == error)
  is_named (answered output) entry = false
  is_named outcome entry = false

  some_uncaught :
      (nodes : Dict (NodeReport F))
      → 1 ≤ count is_uncaught nodes
      → some_of (λ entry. is_uncaught entry.1) nodes ≡ true
  unfolding count
  some_uncaught [] h = absurd (omega arith)
  some_uncaught ((id, report) ∷ rest) h = elim (Bool-cases (is_uncaught report)) [
    | inl e ↦ rw e refl
    | inr e ↦
        let none_here : one_if (is_uncaught report) ≡ 0 = ap one_if e in
        rw e (some_uncaught rest (omega arith))
  ]

  refusal-named :
      (nodes : Dict (NodeReport F)) (at : String) (report : NodeReport F)
      → ended_at_node nodes true ≡ some (at, report)
      → some_of (is_named (failure nodes)) (failed_nodes nodes) ≡ true
  unfolding ended_at_node failure is_named is_refusal
  refusal-named nodes at report h =
      let (passes, among) = find_first-found is_refusal (failed_nodes nodes) (at, report) h in
      let looked : failure nodes
          ≡ refused (or_given report.reason "") (or_given report.error "") report.detail at =
        rw (failure, h) refl in
      let reason_kept = given_name report.reason passes in
      let one = same_text at in
      let words = same_text (or_given report.error "") in
      among (is_named (failure nodes))
        (subst (λ o. is_named o (at, report) ≡ true) (sym looked) (ground arith))

  fault-named :
      (nodes : Dict (NodeReport F)) (at : String) (report : NodeReport F)
      → ended_at_node nodes true ≡ none
      → ended_at_node nodes false ≡ some (at, report)
      → some_of (is_named (failure nodes)) (failed_nodes nodes) ≡ true
  unfolding ended_at_node failure is_named is_fault
  fault-named nodes at report none_refused h =
      let (passes, among) = find_first-found is_fault (failed_nodes nodes) (at, report) h in
      let looked : failure nodes ≡ faulted at (or_given report.error "failed") =
        rw (failure, none_refused, h) refl in
      let one = same_text at in
      let words = same_text (or_given report.error "failed") in
      among (is_named (failure nodes))
        (subst (λ o. is_named o (at, report) ≡ true) (sym looked) (ground arith))

  -- A fault that stands is found where no refusal is.
  some_fault :
      (nodes : Dict (NodeReport F))
      → 1 ≤ count is_uncaught nodes
      → ended_at_node nodes true ≡ none
      → some_of is_fault (failed_nodes nodes) ≡ true
  unfolding ended_at_node is_refusal is_fault is_uncaught
  some_fault nodes h none_refused =
      let no_refusal =
        sym (failed_nodes-some is_refusal nodes)
        ∙ find_first-none is_refusal (failed_nodes nodes) none_refused in
      failed_nodes-some is_fault nodes
      ∙ some_of-either (λ entry. is_uncaught entry.1)
          (λ entry. is_failed entry.1.status && is_refusal entry)
          (λ entry. is_failed entry.1.status && is_fault entry) nodes (λ entry e. ground arith)
          (some_uncaught nodes h) no_refusal

  failure-named :
      (nodes : Dict (NodeReport F))
      → 1 ≤ count is_uncaught nodes
      → some_of (is_named (failure nodes)) (failed_nodes nodes) ≡ true
  unfolding ended_at_node
  failure-named nodes h = elim (Option-cases (ended_at_node nodes true)) [
    | inr ((at, report), e) ↦ refusal-named nodes at report e
    | inl e ↦ elim (Option-cases (ended_at_node nodes false)) [
      | inr ((at, report), e') ↦ fault-named nodes at report e e'
      | inl e' ↦
          let there = some_fault nodes h e in
          let nowhere = find_first-none is_fault (failed_nodes nodes) e' in cc
    ]
  ]

module _ {F : Type 0} ⦃fl : Floats F⦄ ⦃js : Coercions F⦄ where
  -- Over any events, from a run as it is built of a graph that names no node twice: where the run has
  -- ended as failed, the outcome of its report names a node of the report that failed, by the refusal it
  -- gave, or by its fault where it did not refuse and no switch holds the fault.
  pub outcome_of-failed :
      (g : Graph F) (initial : Dict (Option (Value F))) (events : List (Event F))
      → IsDistinct g.nodes
      → (run g events (fresh g initial)).ending ≡ some run_failed
      → let report = report_of g (run g events (fresh g initial)) in
        some_of
          (λ entry. is_failed entry.1.status && is_named (outcome_of report) entry)
          report.nodes
        ≡ true
  unfolding report_of outcome_of
  outcome_of-failed g initial events distinct failed =
      let r = run g events (fresh g initial) in
      let stands = (run-IsExplained g initial events distinct).0 failed in
      rw (report_of, failed)
        (sym (failed_nodes-some (is_named (failure r.reports)) r.reports)
          ∙ failure-named r.reports stands)
