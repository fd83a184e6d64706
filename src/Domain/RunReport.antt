-- ===== src/Domain/RunReport.antt =====
-- internal/domain/runreport.go and executionstate.go: what became of each target of a run, the
-- run's summary and the run report.
pub mod Correct
pub mod Accepted
use svcdoctor.Base.{
  ℕ, ◌+◌, Bool, true, false, not, ◌&&◌, ◌||◌, List, [], ◌∷◌, ◌++◌, Option, none, some, length, ltb,
  if◌then◌else◌,
}
use svcdoctor.Base.Bytes.{Bytes, eqb, member, codes}
use svcdoctor.Base.Int.{ℤ, pos, negsuc, is_neg}
use svcdoctor.Base.Result.{Result, ok, err, ◌>>=◌, ◌>>◌, reject}
use svcdoctor.Domain.Names.{ValueError, validate_identifier, service_valid}
use svcdoctor.Domain.Evidence.{Time, time_is_zero}
use svcdoctor.Domain.Meta.{OutputMode, output_mode_valid}
use svcdoctor.Domain.Summary.{SummaryStatus}
use svcdoctor.Domain.Report.{Report, report_is_zero}

pub data ExecutionState : Type 0 where
  unspecified completed not_started cancelled execution_failed : ExecutionState

abbrev pub state_unspecified : ExecutionState → Bool
state_unspecified ExecutionState.unspecified = true
state_unspecified _ = false

pub data ExecutionErrorClass : Type 0 where
  unspecified credential_resolution internal : ExecutionErrorClass

abbrev pub class_valid : ExecutionErrorClass → Bool
class_valid ExecutionErrorClass.unspecified = false
class_valid _ = true

-- `not_stopped` is `StoppedReasonNone`, the zero value; it is valid.
pub data StoppedReason : Type 0 where
  not_stopped run_budget_exhausted cancelled : StoppedReason

-- The errors of the constructors of a target result; each wraps `ErrInvalidRunReport`.
pub data TargetError : Type 0 where
  no_target_id class_invalid no_message : TargetError
  service_invalid : Bytes → TargetError
  no_report : ExecutionState → TargetError

-- The errors of `NewRunReport`: the last three wrap `ErrInvalidRunReport`, the others
-- `ErrInvalidValue`.
pub data RunError : Type 0 where
  version_invalid : ValueError → RunError
  no_start negative_duration no_concurrency mode_invalid : RunError
  no_targets zero_result : RunError
  duplicate_id : Bytes → RunError

-- A report or none stands for Go's `Report`, whose zero value means that there is none.
pub record TargetResult : Type 0 where
  pub target_id : Bytes
  pub service : Bytes
  pub state : ExecutionState
  pub report : Option Report
  pub incomplete : Bool
  pub err_class : ExecutionErrorClass
  pub err_message : Bytes

-- `TargetResult{}`
abbrev pub zero_target_result : TargetResult
zero_target_result = record {
  target_id = [];
  service = [];
  state = ExecutionState.unspecified;
  report = none;
  incomplete = false;
  err_class = ExecutionErrorClass.unspecified;
  err_message = [];
}

unfoldable pub check_target_identity : Bytes → Bytes → Result TargetError (Unit {0})
check_target_identity target_id service = do
  reject (eqb target_id []) no_target_id
  reject (not (service_valid service)) (service_invalid service)

-- `report.IsZero()`
abbrev pub no_report_given : Option Report → Bool
no_report_given none = true
no_report_given (some r) = report_is_zero r

unfoldable pub report_bearing_target :
    Bytes → Bytes → ExecutionState → Option Report → Bool → Result TargetError TargetResult
unfolding check_target_identity
report_bearing_target target_id service state report incomplete = do
  check_target_identity target_id service
  reject (no_report_given report) (no_report state)
  ok (record zero_target_result {
    target_id = target_id;
    service = service;
    state = state;
    report = report;
    incomplete = incomplete;
  })

abbrev pub completed_target : Bytes → Bytes → Option Report → Bool → Result TargetError TargetResult
completed_target target_id service = report_bearing_target target_id service completed

abbrev pub cancelled_target : Bytes → Bytes → Option Report → Bool → Result TargetError TargetResult
cancelled_target target_id service =
    report_bearing_target target_id service ExecutionState.cancelled

unfoldable pub not_started_target : Bytes → Bytes → Result TargetError TargetResult
unfolding check_target_identity
not_started_target target_id service = do
  check_target_identity target_id service
  ok (record zero_target_result { target_id = target_id; service = service; state = not_started })

unfoldable pub failed_target :
    Bytes → Bytes → ExecutionErrorClass → Bytes → Result TargetError TargetResult
unfolding check_target_identity
failed_target target_id service class message = do
  check_target_identity target_id service
  reject (not (class_valid class)) class_invalid
  reject (eqb message []) no_message
  ok (record zero_target_result {
    target_id = target_id;
    service = service;
    state = execution_failed;
    err_class = class;
    err_message = message;
  })

abbrev pub has_report : TargetResult → Bool
has_report r = not (no_report_given r.report)

abbrev pub is_problems_found : SummaryStatus → Bool
is_problems_found SummaryStatus.problems_found = true
is_problems_found _ = false

-- `r.report.Summary().Status() == SummaryStatusProblemsFound`
abbrev pub report_problems : Option Report → Bool
report_problems none = false
report_problems (some r) = is_problems_found r.summary.status

abbrev pub has_problems : TargetResult → Bool
has_problems r = has_report r && report_problems r.report

pub record RunSummary : Type 0 where
  pub targets : ℕ
  pub completed_count : ℕ
  pub not_started_count : ℕ
  pub cancelled_count : ℕ
  pub execution_failed_count : ℕ
  pub with_problems : ℕ
  pub incomplete_reports : ℕ
  pub status : SummaryStatus
  pub incomplete : Bool

-- The `switch` in the loop of `deriveRunSummary`.
unfoldable pub count_state : ExecutionState → RunSummary → RunSummary
count_state completed s = record s { completed_count = s.completed_count + 1 }
count_state not_started s = record s {
  not_started_count = s.not_started_count + 1;
  incomplete = true;
}
count_state ExecutionState.cancelled s = record s {
  cancelled_count = s.cancelled_count + 1;
  incomplete = true;
}
count_state execution_failed s = record s {
  execution_failed_count = s.execution_failed_count + 1;
  incomplete = true;
}
count_state ExecutionState.unspecified s = s

-- One round of the loop.
unfoldable pub count_result : RunSummary → TargetResult → RunSummary
unfolding count_state
count_result s r =
    let s₁ = count_state r.state s in
    let s₂ =
      if has_problems r
      then record s₁ { with_problems = s₁.with_problems + 1; status = SummaryStatus.problems_found }
      else s₁ in
    if has_report r && r.incomplete
    then record s₂ { incomplete_reports = s₂.incomplete_reports + 1; incomplete = true }
    else s₂

unfoldable pub count_results : RunSummary → List TargetResult → RunSummary
unfolding count_result
count_results s [] = s
count_results s (r ∷ rs) = count_results (count_result s r) rs

abbrev pub fresh_run_summary : ℕ → RunSummary
fresh_run_summary n = record {
  targets = n;
  completed_count = 0;
  not_started_count = 0;
  cancelled_count = 0;
  execution_failed_count = 0;
  with_problems = 0;
  incomplete_reports = 0;
  status = SummaryStatus.ok;
  incomplete = false;
}

unfoldable pub derive_run_summary : List TargetResult → RunSummary
unfolding count_results
derive_run_summary results = count_results (fresh_run_summary (length results)) results

pub record RunReportInput : Type 0 where
  pub svcdoctor_version : Bytes
  pub started_at : Time
  pub duration : ℤ
  pub concurrency : ℤ
  pub output_mode : OutputMode
  pub stopped_reason : StoppedReason
  pub targets : List TargetResult

pub record RunReport : Type 0 where
  pub svcdoctor_version : Bytes
  pub started_at : Time
  pub duration : ℤ
  pub concurrency : ℤ
  pub output_mode : OutputMode
  pub stopped_reason : StoppedReason
  pub targets : List TargetResult
  pub summary : RunSummary

-- The loop of `NewRunReport` over the targets, with `seen`.
unfoldable pub check_targets : List Bytes → List TargetResult → Result RunError (Unit {0})
check_targets seen [] = ok tt
check_targets seen (r ∷ rs) = do
  reject (state_unspecified r.state) zero_result
  reject (member r.target_id seen) (duplicate_id r.target_id)
  check_targets (r.target_id ∷ seen) rs

-- `n < 1`
abbrev pub below_one : ℤ → Bool
below_one (pos n) = ltb n 1
below_one (negsuc n) = true

abbrev pub check_version : Result ValueError (Unit {0}) → Result RunError (Unit {0})
check_version (ok u) = ok u
check_version (err e) = err (version_invalid e)

abbrev pub is_empty : List TargetResult → Bool
is_empty [] = true
is_empty (r ∷ rs) = false

unfoldable pub new_run_report : RunReportInput → Result RunError RunReport
unfolding check_targets
new_run_report r = do
  check_version (validate_identifier r.svcdoctor_version)
  reject (time_is_zero r.started_at) no_start
  reject (is_neg r.duration) negative_duration
  reject (below_one r.concurrency) no_concurrency
  reject (not (output_mode_valid r.output_mode)) mode_invalid
  reject (is_empty r.targets) no_targets
  check_targets [] r.targets
  ok (record {
    svcdoctor_version = r.svcdoctor_version;
    started_at = r.started_at;
    duration = r.duration;
    concurrency = r.concurrency;
    output_mode = r.output_mode;
    stopped_reason = r.stopped_reason;
    targets = r.targets;
    summary = derive_run_summary r.targets;
  })

-- `r.svcdoctorVersion == "" && len(r.targets) == 0`
abbrev pub run_report_is_zero : RunReport → Bool
run_report_is_zero r = eqb r.svcdoctor_version [] && is_empty r.targets
