-- ===== src/Cli/Exit.antt =====
-- internal/cli/exit.go: exit codes.
use svcdoctor.Base.{
  ℕ, Bool, true, false, ◌||◌, List, [], ◌∷◌, Option, none, some, if◌then◌else◌, ◌≡◌, arith,
}
use svcdoctor.Base.Result.{ok}
use svcdoctor.Domain.Report.{Report}
use svcdoctor.Domain.RunReport.{
  has_problems, is_problems_found, RunReportInput, RunReport, new_run_report, run_report_is_zero,
  is_empty,
}
use svcdoctor.Domain.RunReport.Correct.{exists, leaves_incomplete, derive_run_summary-Counted}
use svcdoctor.Domain.RunReport.Accepted.{new_run_report-ok}

abbrev pub exit_ok : ℕ
exit_ok = 0

abbrev pub exit_problems_found : ℕ
exit_problems_found = 1

abbrev pub exit_usage : ℕ
exit_usage = 2

abbrev pub exit_internal : ℕ
exit_internal = 3

abbrev pub exit_incomplete : ℕ
exit_incomplete = 4

-- The sentinel errors that the mapping asks for.
pub data Sentinel : Type 0 where
  usage invalid_input config resolution preflight other : Sentinel

-- The sentinels that an error wraps: `errors.Is(err, s)` looks for `s` among them.
abbrev pub Wrapped : Type 0
Wrapped = List Sentinel

abbrev pub is_usage : Sentinel → Bool
is_usage usage = true
is_usage invalid_input = true
is_usage _ = false

abbrev pub is_run_usage : Sentinel → Bool
is_run_usage other = false
is_run_usage _ = true

unfoldable pub some_sentinel : (Sentinel → Bool) → Wrapped → Bool
some_sentinel p [] = false
some_sentinel p (s ∷ ss) = p s || some_sentinel p ss

-- `app.Result`, the parts that the mapping reads.
pub record AppResult : Type 0 where
  pub report : Report
  pub incomplete : Bool

abbrev pub exit_code_of : AppResult → ℕ
exit_code_of r =
    if r.incomplete
    then exit_incomplete
    else if is_problems_found r.report.summary.status
    then exit_problems_found
    else exit_ok

-- `ExitCode`; `none` is a nil error.
unfoldable pub exit_code : AppResult → Option Wrapped → ℕ
unfolding some_sentinel
exit_code r none = exit_code_of r
exit_code r (some e) = if some_sentinel is_usage e then exit_usage else exit_internal

abbrev pub run_exit_code_of : RunReport → ℕ
run_exit_code_of r =
    if run_report_is_zero r
    then exit_internal
    else if r.summary.incomplete
    then exit_incomplete
    else if is_problems_found r.summary.status
    then exit_problems_found
    else exit_ok

-- `RunExitCode`
unfoldable pub run_exit_code : RunReport → Option Wrapped → ℕ
unfolding some_sentinel
run_exit_code r none = run_exit_code_of r
run_exit_code r (some e) = if some_sentinel is_run_usage e then exit_usage else exit_internal

-- The code of a run that produced a report and no error: 4 when some target did not complete or
-- its report is incomplete, else 1 when some target has problems, else 0.
pub run_exit_code-new_run_report :
    (r : RunReportInput) (report : RunReport)
    → new_run_report r ≡ ok report
    → run_exit_code report none ≡ (
        if exists leaves_incomplete r.targets
        then exit_incomplete
        else if exists has_problems r.targets
        then exit_problems_found
        else exit_ok)
unfolding run_exit_code
run_exit_code-new_run_report r report h =
    let (p, targets, summary) = new_run_report-ok r report h in
    let c = derive_run_summary-Counted r.targets in
    let nonempty : is_empty report.targets ≡ false = rw targets p.nonempty in
    let incomplete : report.summary.incomplete ≡ exists leaves_incomplete r.targets =
      rw summary c.incomplete_known in
    let status : is_problems_found report.summary.status ≡ exists has_problems r.targets =
      rw summary c.status_known in
    ground (arith, nonempty, incomplete, status)
