-- ===== src/Kernel/Report.antt =====
-- packages/engine/src/report.ts and kernel.ts: what a run reports, and how a report says it ended.
use Prim.Native.Char.{code}
use wilanis_js.Common.{
  String, Bool, true, false, not, ◌&&◌, Option, none, some, List, [], ◌∷◌, ◌++◌,
}
use wilanis_js.Common.{if◌then◌else◌, includes, ltb, nat_eq}
use wilanis_js.Common.Dict.{Dict, get}
use wilanis_js.Types.{Value}
use wilanis_js.Expr.{text_below}
use wilanis_js.Expr.Keys.{join}
use wilanis_js.Kernel.{
  Source, Sources, Named, Parts, ref, list, object, value, concat, done, then_source,
}
use wilanis_js.Kernel.{nothing_more, named, no_more, literal, interpolated, pseudo, add}
use wilanis_js.Kernel.Plan.{Node, map_over, inputs}
use wilanis_js.Kernel.Run.{Run, Graph, NodeReport, has_answered, is_pending, is_there, has_status}
use wilanis_js.Kernel.Run.{run_failed, run_cancelled}
use wilanis_js.Kernel.Run.Ends.{is_failed}

pub data ReportStatus : Type 0 where
  report_done report_failed report_blocked report_cancelled : ReportStatus

-- `Report`, without the graph's name and the moments.
pub record Report (F : Type 0) : Type 0 where
  pub status : ReportStatus
  pub output : Option (Value F)
  pub answered_by : Option String
  pub needs : Option (List String)
  pub nodes : Dict (NodeReport F)

-- `path.split('.')[0]`
unfoldable pub before_dot : String → String
before_dot String.[] = String.[]
before_dot (String.◌∷◌ c rest) =
    let more = before_dot rest in if nat_eq (code c) b'.' then String.[] else String.◌∷◌ c more

unfoldable pub as_set : List String → List String → List String
unfolding add
as_set [] out = out
as_set (name ∷ rest) out = as_set rest (add name out)

-- Texts in order, `sort()`.
unfoldable pub insert_text : String → List String → List String
unfolding text_below
insert_text text [] = text ∷ []
insert_text text (other ∷ rest) =
    let later = insert_text text rest in
    if text_below other text then other ∷ later else text ∷ other ∷ rest

unfoldable pub sort_texts : List String → List String
unfolding insert_text
sort_texts [] = []
sort_texts (text ∷ rest) = insert_text text (sort_texts rest)

-- `find`
abbrev pub find_first {ℓ} : {A : Type ℓ} → (A → Bool) → List A → Option A
find_first test [] = none
find_first test (a ∷ rest) = let later = find_first test rest in if test a then some a else later

abbrev pub keep_if {ℓ} : {A : Type ℓ} → (A → Bool) → List A → List A
keep_if test [] = []
keep_if test (a ∷ rest) = let later = keep_if test rest in if test a then a ∷ later else later

-- `a ?? b`
abbrev pub or_given {ℓ} : {A : Type ℓ} → Option A → A → A
or_given none b = b
or_given (some a) b = a

module _ {F : Type 0} where
  unfoldable mutual
    unfolding join

    -- `rootPaths`: the dotted paths that a source reads, after those in `out`.
    pub root_paths : Source F → List String → List String
    root_paths (ref name path) out = out ++ join name path ∷ []
    root_paths (list parts) out = root_paths_list parts out
    root_paths (object sources) out = root_paths_named sources out
    root_paths (value v) out = out
    root_paths (concat parts) out = root_paths_parts parts out

    pub root_paths_list : Sources F → List String → List String
    root_paths_list done out = out
    root_paths_list (then_source s rest) out = root_paths_list rest (root_paths s out)

    pub root_paths_named : Named F → List String → List String
    root_paths_named nothing_more out = out
    root_paths_named (named key s rest) out = root_paths_named rest (root_paths s out)

    pub root_paths_parts : Parts F → List String → List String
    root_paths_parts no_more out = out
    root_paths_parts (literal text rest) out = root_paths_parts rest out
    root_paths_parts (interpolated s rest) out = root_paths_parts rest (root_paths s out)

  -- Every path that a node reads: its inputs', and for a map those of the list it iterates.
  unfoldable pub paths_of : Node F → List String
  unfolding root_paths
  paths_of (map_over sources over after) = root_paths over (root_paths_named sources [])
  paths_of node = root_paths_named (inputs node) []

  unfoldable pub is_unsupplied : Dict (Option (Value F)) → String → Bool
  unfolding before_dot get
  is_unsupplied values path =
      includes pseudo (before_dot path) && not (is_there (get (before_dot path) values))

  unfoldable pub pending_paths : Dict (Node F) → Dict (NodeReport F) → List String
  unfolding paths_of is_pending get
  pending_paths [] reports = []
  pending_paths ((id, node) ∷ rest) reports =
      let later = pending_paths rest reports in
      if has_status is_pending (get id reports) then paths_of node ++ later else later

  -- `needs`
  unfoldable pub needs_of : Graph F → Run F → List String
  unfolding pending_paths is_unsupplied as_set sort_texts
  needs_of g r =
      sort_texts (as_set (keep_if (is_unsupplied r.values) (pending_paths g.nodes r.reports)) [])

  abbrev with_status : ReportStatus → Run F → Report F
  with_status status r = record {
    status = status;
    output = none;
    answered_by = none;
    needs = none;
    nodes = r.reports;
  }

  -- The report of a run that went on to the end.
  unfoldable pub settled_report : Graph F → Run F → Report F
  unfolding needs_of has_answered get
  settled_report g r = elim g.output [
    | none ↦ with_status report_done r
    | some candidates ↦
        elim (find_first (λ id. has_status has_answered (get id r.reports)) candidates) [
          | none ↦ record (with_status report_blocked r) { needs = some (needs_of g r) }
          | some id ↦ record (with_status report_done r) {
            output = or_given (get id r.values) none;
            answered_by = some id;
          }
        ]
  ]

  -- `reportOf`
  unfoldable pub report_of : Graph F → Run F → Report F
  unfolding settled_report
  report_of g r = elim r.ending [
    | some run_failed ↦ with_status report_failed r
    | some run_cancelled ↦ with_status report_cancelled r
    | none ↦ settled_report g r
  ]

  -- `settledBefore`, whether one settled strictly before another.
  unfoldable pub settled_before : NodeReport F → NodeReport F → Bool
  settled_before one other = elim one.order [
    | none ↦ ltb (or_given one.ended_at 0) (or_given other.ended_at 0)
    | some first ↦ elim other.order [
      | none ↦ ltb (or_given one.ended_at 0) (or_given other.ended_at 0)
      | some second ↦ ltb first second
    ]
  ]

  unfoldable pub insert_settled :
      String × NodeReport F → List (String × NodeReport F) → List (String × NodeReport F)
  unfolding settled_before
  insert_settled entry [] = entry ∷ []
  insert_settled entry (other ∷ rest) =
      let later = insert_settled entry rest in
      if settled_before other.1 entry.1 then other ∷ later else entry ∷ other ∷ rest

  -- The nodes that failed, in the order they settled.
  unfoldable pub failed_nodes : Dict (NodeReport F) → List (String × NodeReport F)
  unfolding insert_settled is_failed
  failed_nodes [] = []
  failed_nodes ((id, report) ∷ rest) =
      let later = failed_nodes rest in
      if is_failed report.status then insert_settled (id, report) later else later

  unfoldable pub is_refusal : String × NodeReport F → Bool
  is_refusal (id, report) = is_there report.reason

  unfoldable pub is_fault : String × NodeReport F → Bool
  is_fault (id, report) = not (is_there report.reason) && not (is_there report.caught)

  -- `endedAt`
  unfoldable pub ended_at_node : Dict (NodeReport F) → Bool → Option (String × NodeReport F)
  unfolding failed_nodes is_refusal is_fault
  ended_at_node nodes refused =
      find_first (if refused then is_refusal else is_fault) (failed_nodes nodes)

pub data Outcome (F : Type 0) : Type 0 where
  answered : Option (Value F) → Outcome F
  refused : String → String → Option (Value F) → String → Outcome F
  faulted : String → String → Outcome F
  blocked : List String → Outcome F
  was_cancelled : Outcome F

module _ {F : Type 0} where
  -- `failure`
  unfoldable pub failure : Dict (NodeReport F) → Outcome F
  unfolding ended_at_node
  failure nodes = elim (ended_at_node nodes true) [
    | some (at, report) ↦
        refused (or_given report.reason "") (or_given report.error "") report.detail at
    | none ↦ elim (ended_at_node nodes false) [
      | some (at, report) ↦ faulted at (or_given report.error "failed")
      | none ↦ faulted "" "failed"
    ]
  ]

  -- `outcomeOf`
  unfoldable pub outcome_of : Report F → Outcome F
  unfolding failure
  outcome_of report = elim report.status [
    | report_blocked ↦ blocked (or_given report.needs [])
    | report_failed ↦ failure report.nodes
    | report_cancelled ↦ was_cancelled
    | report_done ↦ answered report.output
  ]

  -- `refusalOf`: the reason, the message and the detail.
  unfoldable pub refusal_of : Report F → Option (String × String × Option (Value F))
  unfolding outcome_of
  refusal_of report = elim (outcome_of report) [
    | refused reason message detail at ↦ some (reason, message, detail)
    | _ ↦ none
  ]
