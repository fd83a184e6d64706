-- ===== src/Fleet/RunOne/Settled.antt =====
-- What internal/fleet/run/execute.go makes of one outcome, and of the failures on the way to it.
use svcdoctor.Base.{
  Bool, true, false, ◌&&◌, [], Option, if◌then◌else◌, ◌≡◌, refl, ◌⊎◌, inl, inr, arith, Bool-cases,
}
use svcdoctor.Base.Bytes.{Bytes, eqb, codes}
use svcdoctor.Base.Result.{ok, err}
use svcdoctor.Domain.Names.{service_valid}
use svcdoctor.Domain.RunReport.{
  ExecutionState, completed, not_started, execution_failed, ExecutionErrorClass, internal,
  TargetError, no_target_id, class_invalid, no_message, service_invalid, no_report, TargetResult,
  zero_target_result, check_target_identity, no_report_given, has_report, report_bearing_target,
  not_started_target, failed_target,
}
use svcdoctor.Fleet.RunOne.{
  Outcome, error_text, fallback_failure, must_not_started, must_failed, classify,
}

-- The id that a result carries: an empty one is replaced.
abbrev pub named : Bytes → Bytes
named id = if eqb id [] then codes "unknown" else id

unknown_ok : (eqb (codes "unknown") [] ≡ false) × (service_valid (codes "unknown") ≡ true)
unfolding eqb service_valid
unknown_ok = (refl, refl)

-- What a result says of its outcome.
abbrev pub Carries : TargetResult → Outcome → Type 0
Carries r o = (r.report ≡ o.report) × (has_report r ≡ true) × (r.incomplete ≡ o.incomplete)

-- A result for the outcome can be made.
abbrev pub Reportable : Bytes → Bytes → Outcome → Type 0
Reportable id service o =
    (eqb id [] ≡ false) × (service_valid service ≡ true) × (no_report_given o.report ≡ false)

-- A result in state `state` that bears the outcome's report, or a failed one where none can be
-- made.
abbrev pub Classified : ExecutionState → Bytes → Bytes → Outcome → TargetResult → Type 0
Classified state id service o r =
    (r.target_id ≡ named id)
    × (((r.state ≡ execution_failed) × (Reportable id service o → ⊥))
        ⊎ ((r.state ≡ state) × Carries r o))

module _ (quote : Bytes → Bytes) where
  error_text_nonempty : (e : TargetError) → eqb (error_text quote e) [] ≡ false
  unfolding error_text eqb
  error_text_nonempty no_target_id = refl
  error_text_nonempty class_invalid = refl
  error_text_nonempty no_message = refl
  error_text_nonempty (service_invalid s) = refl
  error_text_nonempty (no_report s) = refl

  -- The last resort always makes a failed result.
  fallback_failure_lem :
      (id service : Bytes) (cause : TargetError)
      → ((fallback_failure quote id service cause).target_id ≡ named id)
        × ((fallback_failure quote id service cause).state ≡ execution_failed)
  unfolding fallback_failure failed_target check_target_identity
  fallback_failure_lem id service cause = ground (arith, error_text_nonempty cause, unknown_ok)

  pub must_not_started_lem :
      (id service : Bytes)
      → ((must_not_started quote id service).target_id ≡ named id)
        × (((must_not_started quote id service).state ≡ not_started)
            ⊎ ((must_not_started quote id service).state ≡ execution_failed))
  unfolding must_not_started not_started_target check_target_identity
  must_not_started_lem id service = ground (
    arith,
    fallback_failure_lem id service no_target_id,
    fallback_failure_lem id service (service_invalid service),
  )

  pub must_not_started-ok :
      (id service : Bytes)
      → eqb id [] ≡ false
      → service_valid service ≡ true
      → (must_not_started quote id service).state ≡ not_started
  unfolding must_not_started not_started_target check_target_identity
  must_not_started-ok id service id_ok service_ok = ground (arith, id_ok, service_ok)

  pub must_failed_lem :
      (id service : Bytes) (class : ExecutionErrorClass) (message : Bytes)
      → ((must_failed quote id service class message).target_id ≡ named id)
        × ((must_failed quote id service class message).state ≡ execution_failed)
  unfolding must_failed failed_target check_target_identity
  must_failed_lem id service class message = ground (
    arith,
    fallback_failure_lem id service no_target_id,
    fallback_failure_lem id service (service_invalid service),
    fallback_failure_lem id service class_invalid,
    fallback_failure_lem id service no_message,
  )

  report_bearing_target_lem :
      (id service : Bytes) (state : ExecutionState) (report : Option _) (incomplete : Bool)
      → ((r : TargetResult) × (report_bearing_target id service state report incomplete ≡ ok r)
          × (r.target_id ≡ named id)
          × (r.state ≡ state)
          × (r.report ≡ report)
          × (has_report r ≡ true)
          × (r.incomplete ≡ incomplete))
        ⊎ ((e : TargetError) × (report_bearing_target id service state report incomplete ≡ err e)
            × (Reportable id service (record { report = report; incomplete = incomplete }) → ⊥))
  unfolding report_bearing_target check_target_identity
  report_bearing_target_lem id service state report incomplete = elim (Bool-cases (eqb id [])) [
    | inl empty ↦ inr (no_target_id, rw empty refl, λ h. ground (arith, h, empty))
    | inr id_ok ↦ elim (Bool-cases (service_valid service)) [
      | inr bad ↦ inr (service_invalid service, rw (id_ok, bad) refl, λ h. ground (arith, h, bad))
      | inl good ↦ elim (Bool-cases (no_report_given report)) [
        | inl missing ↦
            inr (no_report state, rw (id_ok, good, missing) refl, λ h. ground (arith, h, missing))
        | inr given ↦ inl (
          record zero_target_result {
            target_id = id;
            service = service;
            state = state;
            report = report;
            incomplete = incomplete;
          },
          rw (id_ok, good, given) refl,
          rw id_ok refl,
          refl,
          refl,
          rw given refl,
          refl,
        )
      ]
    ]
  ]

  settle :
      (state : ExecutionState) (id service : Bytes) (o : Outcome)
      → Classified state id service o
          (elim (report_bearing_target id service state o.report o.incomplete) [
            | ok r ↦ r
            | err e ↦ must_failed quote id service internal (error_text quote e)
          ])
  settle state id service o =
      elim (report_bearing_target_lem id service state o.report o.incomplete) [
        | inl (r, e, name, st, rep, has, inc) ↦ rw e (name, inr (st, (rep, has, inc)))
        | inr (e, h, unfit) ↦
            let (name, st) = must_failed_lem id service internal (error_text quote e) in
            rw h (name, inl (st, unfit))
      ]

  pub classify_lem :
      (done : Bool) (id service : Bytes) (o : Outcome)
      → Classified
          (if done && o.incomplete then ExecutionState.cancelled else completed)
          id
          service
          o
          (classify quote done id service o)
  unfolding classify
  classify_lem done id service o = elim (Bool-cases (done && o.incomplete)) [
    | inl stopped ↦ rw (stopped, classify) (settle ExecutionState.cancelled id service o)
    | inr finished ↦ rw (finished, classify) (settle completed id service o)
  ]
