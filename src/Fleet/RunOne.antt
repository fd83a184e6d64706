-- ===== src/Fleet/RunOne.antt =====
-- internal/fleet/run/execute.go: what the executor makes of one target.
pub mod Settled
pub mod Total
use svcdoctor.Base.{
  ℕ, Bool, true, false, not, ◌&&◌, ◌||◌, List, [], ◌∷◌, ◌++◌, Option, none, some, if◌then◌else◌,
  ◌≡◌, refl, sym, ◌∙◌, ◌≢◌, ◌⊎◌, inl, inr, arith, Bool-cases,
}
use svcdoctor.Base.Bytes.{Bytes, eqb, codes}
use svcdoctor.Base.Result.{Result, ok, err, ◌>>=◌, ◌>>◌, reject}
use svcdoctor.Domain.Names.{new_service_id, service_valid}
use svcdoctor.Domain.Report.{Report}
use svcdoctor.Domain.RunReport.{
  ExecutionState, completed, not_started, execution_failed, state_unspecified, ExecutionErrorClass,
  credential_resolution, internal, class_valid, TargetError, no_target_id, class_invalid,
  no_message, service_invalid, no_report, TargetResult, zero_target_result, check_target_identity,
  no_report_given, report_bearing_target, completed_target, cancelled_target, not_started_target,
  failed_target,
}
use svcdoctor.Fleet.Params.{Target}

pub record Outcome : Type 0 where
  pub report : Option Report
  pub incomplete : Bool

-- An error of the resolver: the text of `SafeMessage` where it has that method.
pub record CredentialError : Type 0 where
  pub safe : Option Bytes

-- What the calls out of `runOne` answer: whether the run's context is done at the start, what the
-- resolver and the runner return (an error by its text), and whether the context is done at the
-- end. The calls themselves are code of other components.
pub record Answers : Type 0 where
  pub done_before : Bool
  pub credential : Result CredentialError (Unit {0})
  pub ran : Result Bytes Outcome
  pub done_after : Bool

abbrev pub state_name : ExecutionState → Bytes
state_name ExecutionState.unspecified = codes "UNSPECIFIED"
state_name completed = codes "COMPLETED"
state_name not_started = codes "NOT_STARTED"
state_name ExecutionState.cancelled = codes "CANCELLED"
state_name execution_failed = codes "EXECUTION_FAILED"

unfoldable pub safe_message : CredentialError → Bytes
safe_message e = elim e.safe [
  | none ↦ codes "the credential could not be resolved"
  | some text ↦ text
]

-- `serviceID`
unfoldable pub service_id : Target → Bytes
service_id t = elim (new_service_id t.service) [ ok id ↦ id | err e ↦ [] ]

-- `quote` is `%q` of the formatting library.
module _ (quote : Bytes → Bytes) where
  -- `err.Error()`
  unfoldable pub error_text : TargetError → Bytes
  error_text no_target_id = codes "invalid run report: a target result requires a target id"
  error_text class_invalid = codes "invalid run report: execution error class UNSPECIFIED"
  error_text no_message = codes "invalid run report: a failed target requires a message"
  error_text (service_invalid s) = codes "invalid run report: service id " ++ quote s
  error_text (no_report state) =
      codes "invalid run report: a " ++ (state_name state ++ codes " target requires a report")

  unfoldable pub fallback_failure : Bytes → Bytes → TargetError → TargetResult
  unfolding error_text
  fallback_failure id service cause =
      let id' = if eqb id [] then codes "unknown" else id in
      let service' = if service_valid service then service else codes "unknown" in
      elim (failed_target id' service' internal (error_text cause)) [
        | ok r ↦ r
        | err e ↦ zero_target_result
      ]

  unfoldable pub must_not_started : Bytes → Bytes → TargetResult
  unfolding fallback_failure
  must_not_started id service = elim (not_started_target id service) [
    | ok r ↦ r
    | err e ↦ fallback_failure id service e
  ]

  unfoldable pub must_failed : Bytes → Bytes → ExecutionErrorClass → Bytes → TargetResult
  unfolding fallback_failure
  must_failed id service class message =
      let message' = if eqb message [] then codes "the target could not be executed" else message in
      elim (failed_target id service class message') [
        | ok r ↦ r
        | err e ↦ fallback_failure id service e
      ]

  -- `done` is `e.runCtx.Err() != nil`.
  unfoldable pub classify : Bool → Bytes → Bytes → Outcome → TargetResult
  unfolding must_failed
  classify done id service o =
      let made =
        if done && o.incomplete
        then cancelled_target id service o.report o.incomplete
        else completed_target id service o.report o.incomplete in
      elim made [ ok r ↦ r | err e ↦ must_failed id service internal (error_text e) ]

  unfoldable pub run_one : Target → Answers → TargetResult
  unfolding must_not_started must_failed safe_message service_id classify
  run_one t a =
      let id = t.id in
      let service = service_id t in
      if a.done_before then must_not_started id service else elim a.credential [
        | err e ↦ must_failed id service credential_resolution (safe_message e)
        | ok _ ↦ elim a.ran [
          | err text ↦ must_failed id service internal text
          | ok outcome ↦ classify a.done_after id service outcome
        ]
      ]
