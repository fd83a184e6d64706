-- ===== src/Domain/RunReport/Correct.antt =====
-- What `deriveRunSummary` and `NewRunReport` of internal/domain/runreport.go say of the targets.
use svcdoctor.Base.{
  ℕ, ◌+◌, Bool, true, false, ◌&&◌, ◌||◌, List, [], ◌∷◌, length, ◌≡◌, refl, ◌∙◌, arith, All,
}
use svcdoctor.Domain.RunReport.{
  ExecutionState, completed, not_started, execution_failed, state_unspecified, TargetResult,
  has_report, has_problems, is_problems_found, RunSummary, count_result, count_results,
  fresh_run_summary, derive_run_summary,
}

abbrev pub bit : Bool → ℕ
bit true = 1
bit false = 0

-- How many targets satisfy a test, and whether one does.
abbrev pub count_if : (TargetResult → Bool) → List TargetResult → ℕ
count_if p [] = 0
count_if p (r ∷ rs) = bit (p r) + count_if p rs

abbrev pub exists : (TargetResult → Bool) → List TargetResult → Bool
exists p [] = false
exists p (r ∷ rs) = p r || exists p rs

abbrev pub is_completed : TargetResult → Bool
is_completed r = elim r.state [ completed ↦ true | _ ↦ false ]

abbrev pub is_not_started : TargetResult → Bool
is_not_started r = elim r.state [ not_started ↦ true | _ ↦ false ]

abbrev pub is_cancelled : TargetResult → Bool
is_cancelled r = elim r.state [ ExecutionState.cancelled ↦ true | _ ↦ false ]

abbrev pub is_execution_failed : TargetResult → Bool
is_execution_failed r = elim r.state [ execution_failed ↦ true | _ ↦ false ]

abbrev pub is_incomplete_report : TargetResult → Bool
is_incomplete_report r = has_report r && r.incomplete

-- A target that did not run to completion, or whose report is incomplete.
abbrev pub leaves_incomplete : TargetResult → Bool
leaves_incomplete r =
    is_not_started r || is_cancelled r || is_execution_failed r || is_incomplete_report r

pub record Counted (s : RunSummary) (rs : List TargetResult) (t : RunSummary) : Type 0 where
  pub targets_kept : t.targets ≡ s.targets
  pub completed_known : t.completed_count ≡ s.completed_count + count_if is_completed rs
  pub not_started_known : t.not_started_count ≡ s.not_started_count + count_if is_not_started rs
  pub cancelled_known : t.cancelled_count ≡ s.cancelled_count + count_if is_cancelled rs
  pub failed_known :
      t.execution_failed_count ≡ s.execution_failed_count + count_if is_execution_failed rs
  pub problems_known : t.with_problems ≡ s.with_problems + count_if has_problems rs
  pub reports_known : t.incomplete_reports ≡ s.incomplete_reports + count_if is_incomplete_report rs
  pub status_known :
      is_problems_found t.status ≡ (is_problems_found s.status || exists has_problems rs)
  pub incomplete_known : t.incomplete ≡ (s.incomplete || exists leaves_incomplete rs)

count_result-Counted : (s : RunSummary) (r : TargetResult) → Counted s (r ∷ []) (count_result s r)
unfolding count_result
count_result-Counted s r = ground arith

Counted-trans :
    (s t u : RunSummary) (r : TargetResult) (rs : List TargetResult)
    → Counted s (r ∷ []) t
    → Counted t rs u
    → Counted s (r ∷ rs) u
Counted-trans s t u r rs a b = record {
  targets_kept = b.targets_kept ∙ a.targets_kept;
  completed_known = omega (arith, a.completed_known, b.completed_known);
  not_started_known = omega (arith, a.not_started_known, b.not_started_known);
  cancelled_known = omega (arith, a.cancelled_known, b.cancelled_known);
  failed_known = omega (arith, a.failed_known, b.failed_known);
  problems_known = omega (arith, a.problems_known, b.problems_known);
  reports_known = omega (arith, a.reports_known, b.reports_known);
  status_known = ground (arith, a.status_known, b.status_known);
  incomplete_known = ground (arith, a.incomplete_known, b.incomplete_known);
}

count_results-Counted :
    (s : RunSummary) (rs : List TargetResult) → Counted s rs (count_results s rs)
unfolding count_results
count_results-Counted s [] = record {
  targets_kept = refl;
  completed_known = omega arith;
  not_started_known = omega arith;
  cancelled_known = omega arith;
  failed_known = omega arith;
  problems_known = omega arith;
  reports_known = omega arith;
  status_known = ground arith;
  incomplete_known = ground arith;
}
count_results-Counted s (r ∷ rs) =
    Counted-trans s (count_result s r) (count_results (count_result s r) rs) r rs
      (count_result-Counted s r) (count_results-Counted (count_result s r) rs)

-- A run summary counts the targets of each state, with problems and with incomplete reports; its
-- status reports problems exactly when some target's report does, and it is incomplete exactly when
-- some target did not complete or has an incomplete report.
pub derive_run_summary-Counted :
    (rs : List TargetResult) → Counted (fresh_run_summary (length rs)) rs (derive_run_summary rs)
unfolding derive_run_summary
derive_run_summary-Counted rs = count_results-Counted (fresh_run_summary (length rs)) rs

abbrev pub HasState : TargetResult → Type 0
HasState r = state_unspecified r.state ≡ false

partition_step :
    (r : TargetResult)
    → HasState r
    → bit (is_completed r)
        + bit (is_not_started r)
        + bit (is_cancelled r)
        + bit (is_execution_failed r)
      ≡ 1
partition_step r h = ground arith

partition :
    (rs : List TargetResult)
    → All HasState rs
    → count_if is_completed rs
        + count_if is_not_started rs
        + count_if is_cancelled rs
        + count_if is_execution_failed rs
      ≡ length rs
partition [] h = omega arith
partition (r ∷ rs) h = omega (arith, partition_step r h.0, partition rs h.1)

-- In the summary of results that all have a state, the four states add up to the targets.
pub derive_run_summary_partition :
    (rs : List TargetResult)
    → All HasState rs
    → let s = derive_run_summary rs in
      s.completed_count + s.not_started_count + s.cancelled_count + s.execution_failed_count
      ≡ s.targets
derive_run_summary_partition rs h =
    let c = derive_run_summary-Counted rs in
    omega (
      arith,
      partition rs h,
      c.targets_kept,
      c.completed_known,
      c.not_started_known,
      c.cancelled_known,
      c.failed_known,
    )
