-- ===== src/Domain/RunReport/Accepted.antt =====
-- `NewRunReport` of internal/domain/runreport.go: which results make a run report.
use svcdoctor.Base.{Bool, true, false, not, ◌&&◌, List, [], ◌∷◌, ◌≡◌, refl, arith, All}
use svcdoctor.Base.Bytes.{Bytes, eqb, member, eqb_iff}
use svcdoctor.Base.Result.{Result, ok, err, reject-eq-ok, >>-eq-ok}
use svcdoctor.Domain.Names.{validate_identifier}
use svcdoctor.Domain.Evidence.{time_is_zero}
use svcdoctor.Domain.Meta.{output_mode_valid}
use svcdoctor.Base.Int.{is_neg}
use svcdoctor.Domain.RunReport.Correct.{HasState}
use svcdoctor.Domain.RunReport.{
  state_unspecified, TargetResult, derive_run_summary, no_start, negative_duration, no_concurrency,
  mode_invalid, no_targets, RunReportInput, RunReport, check_targets, check_version, below_one,
  is_empty, zero_result, duplicate_id, new_run_report,
}

-- No target id stands twice.
abbrev pub absent : Bytes → List TargetResult → Bool
absent id [] = true
absent id (r ∷ rs) = not (eqb r.target_id id) && absent id rs

abbrev pub Distinct : List TargetResult → Type 0
Distinct [] = Unit
Distinct (r ∷ rs) = (absent r.target_id rs ≡ true) × Distinct rs

abbrev Unseen : List Bytes → TargetResult → Type 0
Unseen seen r = member r.target_id seen ≡ false

Unseen-cons :
    (seen : List Bytes) (r : TargetResult) (rs : List TargetResult)
    → absent r.target_id rs ≡ true
    → All (Unseen seen) rs
    → All (Unseen (r.target_id ∷ seen)) rs
unfolding member
Unseen-cons seen r [] a h = tt
Unseen-cons seen r (x ∷ rs) a h = (
  ground (arith, eqb_iff x.target_id r.target_id, eqb_iff r.target_id x.target_id),
  Unseen-cons seen r rs (ground arith) h.1,
)

Unseen-tail :
    (seen : List Bytes) (r : TargetResult) (rs : List TargetResult)
    → All (Unseen (r.target_id ∷ seen)) rs
    → All (Unseen seen) rs × (absent r.target_id rs ≡ true)
unfolding member
Unseen-tail seen r [] h = (tt, refl)
Unseen-tail seen r (x ∷ rs) h =
    let (rest, a) = Unseen-tail seen r rs h.1 in
    (
      (ground arith, rest),
      ground (arith, eqb_iff x.target_id r.target_id, eqb_iff r.target_id x.target_id),
    )

check_targets-ok :
    (seen : List Bytes) (rs : List TargetResult)
    → check_targets seen rs ≡ ok tt
    → All HasState rs × Distinct rs × All (Unseen seen) rs
unfolding check_targets
check_targets-ok seen [] h = (tt, tt, tt)
check_targets-ok seen (r ∷ rs) h =
    let (state, h') = reject-eq-ok (state_unspecified r.state) zero_result _ h in
    let (fresh, h'') = reject-eq-ok (member r.target_id seen) (duplicate_id r.target_id) _ h' in
    let (states, distinct, unseen) = check_targets-ok (r.target_id ∷ seen) rs h'' in
    let (rest, a) = Unseen-tail seen r rs unseen in ((state, states), (a, distinct), (fresh, rest))

check_targets-of :
    (seen : List Bytes) (rs : List TargetResult)
    → All HasState rs
    → Distinct rs
    → All (Unseen seen) rs
    → check_targets seen rs ≡ ok tt
unfolding check_targets
check_targets-of seen [] h d u = refl
check_targets-of seen (r ∷ rs) h d u =
    rw (h.0, u.0) (check_targets-of (r.target_id ∷ seen) rs h.1 d.1 (Unseen-cons seen r rs d.0 u.1))

All-Unseen : (rs : List TargetResult) → All (Unseen []) rs
unfolding member
All-Unseen [] = tt
All-Unseen (r ∷ rs) = (refl, All-Unseen rs)

-- What an input must be for a run report.
pub record Reportable (r : RunReportInput) : Type 0 where
  pub version_ok : validate_identifier r.svcdoctor_version ≡ ok tt
  pub started : time_is_zero r.started_at ≡ false
  pub duration_ok : is_neg r.duration ≡ false
  pub concurrency_ok : below_one r.concurrency ≡ false
  pub mode_ok : output_mode_valid r.output_mode ≡ true
  pub nonempty : is_empty r.targets ≡ false
  pub states : All HasState r.targets
  pub distinct : Distinct r.targets

abbrev pub report_of : RunReportInput → RunReport
report_of r = record {
  svcdoctor_version = r.svcdoctor_version;
  started_at = r.started_at;
  duration = r.duration;
  concurrency = r.concurrency;
  output_mode = r.output_mode;
  stopped_reason = r.stopped_reason;
  targets = r.targets;
  summary = derive_run_summary r.targets;
}

-- Every reportable input is accepted (an identifier as version, a start, no negative duration,
-- one worker or more, a valid output mode, at least one target, each with a state and no id
-- twice), and the report keeps its fields and derives the summary.
pub new_run_report-Reportable :
    (r : RunReportInput) → Reportable r → new_run_report r ≡ ok (report_of r)
unfolding new_run_report
new_run_report-Reportable r p = rw (
  p.version_ok,
  p.started,
  p.duration_ok,
  p.concurrency_ok,
  p.mode_ok,
  p.nonempty,
  check_targets-of [] r.targets p.states p.distinct (All-Unseen r.targets),
)

check_version-ok : (v : Result _ (Unit {0})) → check_version v ≡ ok tt → v ≡ ok tt
check_version-ok (ok tt) h = refl
check_version-ok (err e) h = cc

-- Only a reportable input is accepted: an identifier as version, a start, no negative duration,
-- one worker or more, a valid output mode, and at least one target, each with a state and no id
-- twice. The report then holds exactly the targets given, in their order, and the summary derived
-- from them.
pub new_run_report-ok :
    (r : RunReportInput) (report : RunReport)
    → new_run_report r ≡ ok report
    → Reportable r × (report.targets ≡ r.targets) × (report.summary ≡ derive_run_summary r.targets)
unfolding new_run_report
new_run_report-ok r report h =
    let (version, h) = >>-eq-ok (check_version (validate_identifier r.svcdoctor_version)) _ h in
    let (start, h) = reject-eq-ok (time_is_zero r.started_at) no_start _ h in
    let (duration, h) = reject-eq-ok (is_neg r.duration) negative_duration _ h in
    let (concurrency, h) = reject-eq-ok (below_one r.concurrency) no_concurrency _ h in
    let (mode, h) = reject-eq-ok (not (output_mode_valid r.output_mode)) mode_invalid _ h in
    let (some, h) = reject-eq-ok (is_empty r.targets) no_targets _ h in
    let (targets, h) = >>-eq-ok (check_targets [] r.targets) _ h in
    let (states, distinct, unseen) = check_targets-ok [] r.targets targets in
    let same : report_of r ≡ report = cc in
    (
      record {
        version_ok = check_version-ok (validate_identifier r.svcdoctor_version) version;
        started = start;
        duration_ok = duration;
        concurrency_ok = concurrency;
        mode_ok = ground arith;
        nonempty = some;
        states = states;
        distinct = distinct;
      },
      rw (← same),
      rw (← same),
    )
