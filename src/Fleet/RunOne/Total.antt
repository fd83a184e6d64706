-- ===== src/Fleet/RunOne/Total.antt =====
-- Whatever the resolver and the runner answer, the executor makes a result for the target.
use svcdoctor.Base.{
  Bool, true, false, ◌&&◌, [], if◌then◌else◌, ◌≡◌, refl, sym, subst, ◌∙◌, ◌⊎◌, inl, inr, arith,
}
use svcdoctor.Base.Bytes.{Bytes, eqb}
use svcdoctor.Base.Result.{Result, ok, err}
use svcdoctor.Domain.Names.{service_valid}
use svcdoctor.Domain.RunReport.{
  ExecutionState, completed, not_started, execution_failed, state_unspecified, ExecutionErrorClass,
  credential_resolution, internal, TargetResult,
}
use svcdoctor.Fleet.Params.{Target}
use svcdoctor.Fleet.RunOne.{
  Outcome, CredentialError, Answers, safe_message, service_id, must_not_started, must_failed,
  classify, run_one,
}
use svcdoctor.Fleet.RunOne.Settled.{
  named, Carries, Reportable, Classified, must_not_started_lem, must_not_started-ok,
  must_failed_lem, classify_lem,
}

module _ (quote : Bytes → Bytes) where
  -- The credential was resolved before the context was done, and the runner returned `o`.
  pub record Finished (a : Answers) (o : Outcome) : Type 0 where
    pub began : a.done_before ≡ false
    pub resolved : a.credential ≡ ok tt
    pub returned : a.ran ≡ ok o

  -- The state of a target whose runner returned `o`.
  abbrev pub settled : Answers → Outcome → ExecutionState
  settled a o = if a.done_after && o.incomplete then ExecutionState.cancelled else completed

  -- What the executor's result for a target says.
  pub record Made (t : Target) (a : Answers) (r : TargetResult) : Type 0 where
    pub id_known : r.target_id ≡ named t.id
    pub state_known : state_unspecified r.state ≡ false
    pub not_started_known : r.state ≡ not_started → a.done_before ≡ true
    pub ended_known :
        (r.state ≡ completed) ⊎ (r.state ≡ ExecutionState.cancelled)
        → (o : Outcome) × Finished a o × (r.state ≡ settled a o) × Carries r o
    pub waiting_reported :
        a.done_before ≡ true
        → eqb t.id [] ≡ false
        → service_valid (service_id t) ≡ true
        → r.state ≡ not_started
    pub outcome_reported :
        (o : Outcome)
        → Finished a o
        → Reportable t.id (service_id t) o
        → (r.state ≡ settled a o) × Carries r o

  failed-Made :
      (t : Target) (a : Answers) (r : TargetResult)
      → a.done_before ≡ false
      → ((o : Outcome) → Finished a o → Reportable t.id (service_id t) o → ⊥)
      → (r.target_id ≡ named t.id) × (r.state ≡ execution_failed)
      → Made t a r
  failed-Made t a r after unfit (name, st) = record {
    id_known = name;
    state_known = rw st refl;
    not_started_known = λ e. absurd (cc);
    ended_known = λ e. absurd (none e);
    waiting_reported = λ before _ _. absurd (ground (arith, before, after));
    outcome_reported = λ o f fit. absurd (unfit o f fit);
  }
    where
      none : (r.state ≡ completed) ⊎ (r.state ≡ ExecutionState.cancelled) → ⊥
      none (inl e) = cc
      none (inr e) = cc

  settled_cases :
      (a : Answers) (o : Outcome)
      → (settled a o ≡ completed) ⊎ (settled a o ≡ ExecutionState.cancelled)
  settled_cases a o = ground arith

  same_outcome : {x y : Outcome} → ◌≡◌ {A = Result Bytes Outcome} (ok x) (ok y) → x ≡ y
  same_outcome {x} {y} h = cc

  Classified-Made :
      (t : Target) (a : Answers) (o : Outcome) (r : TargetResult)
      → Finished a o
      → Classified (settled a o) t.id (service_id t) o r
      → Made t a r
  Classified-Made t a o r f (name, inl (st, unfit)) =
      failed-Made t a r f.began
        (λ o' f' fit. unfit (subst (Reportable t.id (service_id t)) (same o' f') fit)) (name, st)
    where
      same : (o' : Outcome) → Finished a o' → o' ≡ o
      same o' f' = same_outcome (sym f'.returned ∙ f.returned)
  Classified-Made t a o r f (name, inr (st, carried)) = record {
    id_known = name;
    state_known = at (settled_cases a o);
    not_started_known = λ e. absurd (neither e (settled_cases a o));
    ended_known = λ e. (o, f, st, carried);
    waiting_reported = λ before _ _. absurd (ground (arith, before, f.began));
    outcome_reported = λ o' f' fit.
        subst (λ x. (r.state ≡ settled a x) × Carries r x)
          (same_outcome (sym f.returned ∙ f'.returned)) (st, carried);
  }
    where
      at :
          (settled a o ≡ completed) ⊎ (settled a o ≡ ExecutionState.cancelled)
          → state_unspecified r.state ≡ false
      at (inl e) = rw (st, e) refl
      at (inr e) = rw (st, e) refl

      neither :
          r.state ≡ not_started
          → (settled a o ≡ completed) ⊎ (settled a o ≡ ExecutionState.cancelled)
          → ⊥
      neither h (inl e) = cc
      neither h (inr e) = cc

  waiting-Made :
      (t : Target) (a : Answers) (r : TargetResult)
      → a.done_before ≡ true
      → (eqb t.id [] ≡ false → service_valid (service_id t) ≡ true → r.state ≡ not_started)
      → (r.target_id ≡ named t.id) × ((r.state ≡ not_started) ⊎ (r.state ≡ execution_failed))
      → Made t a r
  waiting-Made t a r before started (name, st) = record {
    id_known = name;
    state_known = at st;
    not_started_known = λ e. before;
    ended_known = λ e. absurd (none e st);
    waiting_reported = λ _. started;
    outcome_reported = λ o f fit. absurd (ground (arith, before, f.began));
  }
    where
      at :
          (r.state ≡ not_started) ⊎ (r.state ≡ execution_failed) → state_unspecified r.state ≡ false
      at (inl e) = rw e refl
      at (inr e) = rw e refl

      none :
          (r.state ≡ completed) ⊎ (r.state ≡ ExecutionState.cancelled)
          → (r.state ≡ not_started) ⊎ (r.state ≡ execution_failed)
          → ⊥
      none (inl e) (inl h) = cc
      none (inl e) (inr h) = cc
      none (inr e) (inl h) = cc
      none (inr e) (inr h) = cc

  module _ (t : Target) (a : Answers) (after : a.done_before ≡ false) where
    failed :
        (class : ExecutionErrorClass) (text : Bytes)
        → ((o : Outcome) → Finished a o → ⊥)
        → Made t a (must_failed quote t.id (service_id t) class text)
    failed class text unfit =
        failed-Made t a (must_failed quote t.id (service_id t) class text) after
          (λ o f _. unfit o f) (must_failed_lem quote t.id (service_id t) class text)

    ran :
        (x : Result Bytes Outcome)
        → a.credential ≡ ok tt
        → a.ran ≡ x
        → Made t a (elim x [
          | err text ↦ must_failed quote t.id (service_id t) internal text
          | ok outcome ↦ classify quote a.done_after t.id (service_id t) outcome
        ])
    ran (err text) c h = failed internal text (λ o f. let e = f.returned in cc)
    ran (ok o) c h =
        Classified-Made t a o (classify quote a.done_after t.id (service_id t) o)
          (record { began = after; resolved = c; returned = h })
          (classify_lem quote a.done_after t.id (service_id t) o)

    resolve :
        (c : Result CredentialError (Unit {0}))
        → a.credential ≡ c
        → Made t a (elim c [
          | err e ↦ must_failed quote t.id (service_id t) credential_resolution (safe_message e)
          | ok _ ↦ elim a.ran [
            | err text ↦ must_failed quote t.id (service_id t) internal text
            | ok outcome ↦ classify quote a.done_after t.id (service_id t) outcome
          ]
        ])
    resolve (err e) h =
        failed credential_resolution (safe_message e) (λ o f. let e' = f.resolved in cc)
    resolve (ok u) h = ran a.ran h refl

  -- A cancelled target was cancelled by a context that is done.
  pub cancelled-done :
      {t : Target} {a : Answers} {r : TargetResult}
      → Made t a r
      → r.state ≡ ExecutionState.cancelled
      → a.done_after ≡ true
  cancelled-done {a = a} m e =
      let (o, f, st, carried) = m.ended_known (inr e) in by_state o (sym st ∙ e)
    where
      by_state : (o : Outcome) → settled a o ≡ ExecutionState.cancelled → a.done_after ≡ true
      by_state o h = ground arith

  -- Whatever the calls answer, the executor makes a result that carries a state and the target's
  -- id, or `unknown` where that is empty. It is not started only if the context was done first, and
  -- completed or cancelled only if the context was not, the credential was resolved and the runner
  -- returned an outcome; then it bears that outcome's report and mark, and is cancelled exactly if
  -- the context is done at the end and the outcome is incomplete. If the target's id and service are
  -- acceptable, it is not started whenever the context was done first, and completed or cancelled
  -- whenever the runner returned an outcome with a report.
  pub run_one-Made : (t : Target) (a : Answers) → Made t a (run_one quote t a)
  unfolding run_one
  run_one-Made t a = choose a.done_before refl
    where
      choose :
          (b : Bool)
          → a.done_before ≡ b
          → Made t a (
              if b then must_not_started quote t.id (service_id t) else elim a.credential [
                | err e ↦
                    must_failed quote t.id (service_id t) credential_resolution (safe_message e)
                | ok _ ↦ elim a.ran [
                  | err text ↦ must_failed quote t.id (service_id t) internal text
                  | ok outcome ↦ classify quote a.done_after t.id (service_id t) outcome
                ]
              ])
      choose true before =
          waiting-Made t a (must_not_started quote t.id (service_id t)) before
            (must_not_started-ok quote t.id (service_id t))
            (must_not_started_lem quote t.id (service_id t))
      choose false after = resolve t a after a.credential refl
