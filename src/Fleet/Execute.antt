-- ===== src/Fleet/Execute.antt =====
-- internal/fleet/run/execute.go: the dispatcher and the workers of a run as a step relation, and
-- what `execute` does when they are done. The workers write to disjoint slots of `results`, so a
-- call of `runOne` is one step, taken when it ends.
pub mod Schedule
pub mod Progress
pub mod Report
use svcdoctor.Base.{
  ℕ, zero, suc, ◌+◌, ◌≤◌, ◌<◌, Bool, true, false, not, ◌||◌, ◌&&◌, List, [], ◌∷◌, Option, none,
  some, length, get_elem?, set, replicate, ◌==◌, ◌≡◌, refl, ◌⊎◌, if◌then◌else◌,
}
use svcdoctor.Base.Bytes.{Bytes}
use svcdoctor.Base.Result.{Result, ok, err, ◌>>=◌}
use svcdoctor.Domain.RunReport.{
  ExecutionState, not_started, StoppedReason, not_stopped, run_budget_exhausted, state_unspecified,
  TargetError, TargetResult, zero_target_result, not_started_target, RunError, RunReportInput,
  RunReport, new_run_report,
}
use svcdoctor.Base.Int.{ℤ, pos}
use svcdoctor.Domain.Evidence.{Time}
use svcdoctor.Domain.Meta.{local_full}
use svcdoctor.Fleet.Params.{Target}
use svcdoctor.Fleet.RunOne.{Answers, service_id, run_one}

-- `sent` is the loop variable of `dispatch`; `running` holds the indices that workers have taken;
-- `done` is `runCtx.Err() != nil`.
pub record Sched : Type 0 where
  pub sent : ℕ
  pub closed : Bool
  pub done : Bool
  pub running : List ℕ
  pub results : List TargetResult

unfoldable pub start : ℕ → Sched
start count = record {
  sent = 0;
  closed = false;
  done = false;
  running = [];
  results = replicate count zero_target_result;
}

abbrev pub among : ℕ → List ℕ → Bool
among i [] = false
among i (j ∷ js) = j == i || among i js

-- The worker that had index `i` is free again.
abbrev pub release : ℕ → List ℕ → List ℕ
release i [] = []
release i (j ∷ js) = if j == i then js else j ∷ release i js

module _ (quote : Bytes → Bytes) (targets : List Target) (workers : ℕ) where
  pub data Step : Sched → Sched → Type 0 where
    -- `case next <- i`: a free worker takes the next index.
    send :
        (s : Sched)
        → s.closed ≡ false
        → s.sent < length targets
        → length s.running < workers
        → Step s (record s { sent = suc s.sent; running = s.sent ∷ s.running })
    -- The deadline passes, or the parent context is cancelled.
    cancel : (s : Sched) → Step s (record s { done = true })
    -- `dispatch` returns: the loop is over, or `case <-runCtx.Done()` was taken.
    close :
        (s : Sched)
        → (s.sent ≡ length targets) ⊎ (s.done ≡ true)
        → Step s (record s { closed = true })
    -- `runOne(i)` ends. It saw the context done only if it is.
    finish :
        (s : Sched) (i : ℕ) (t : Target) (a : Answers)
        → among i s.running ≡ true
        → get_elem? targets i ≡ some t
        → (a.done_before ≡ true → s.done ≡ true)
        → (a.done_after ≡ true → s.done ≡ true)
        → Step s (record s {
          running = release i s.running;
          results = set s.results i (run_one quote t a);
        })

  pub data Reach : Sched → Type 0 where
    begin : Reach (start (length targets))
    next : {s u : Sched} → Reach s → Step s u → Reach u

-- `wg.Wait()` has returned.
abbrev pub Finished : Sched → Type 0
Finished s = (s.closed ≡ true) × (s.running ≡ [])

-- The loop that gives every target without a result the one of a target not started.
unfoldable pub fill : List Target → List TargetResult → Result TargetError (List TargetResult)
fill [] results = ok results
fill (t ∷ ts) [] = ok []
fill (t ∷ ts) (r ∷ results) = do
  first ← if state_unspecified r.state then not_started_target t.id (service_id t) else ok r
  rest ← fill ts results
  ok (first ∷ rest)

-- `ctx.Err()`
pub data ContextError : Type 0 where
  live deadline_exceeded canceled : ContextError

abbrev pub is_live : ContextError → Bool
is_live live = true
is_live _ = false

abbrev pub was_stopped : ExecutionState → Bool
was_stopped not_started = true
was_stopped ExecutionState.cancelled = true
was_stopped _ = false

unfoldable pub incomplete_scheduling : List TargetResult → Bool
incomplete_scheduling [] = false
incomplete_scheduling (r ∷ rs) = was_stopped r.state || incomplete_scheduling rs

-- The `switch` of `stoppedReason`: first on the caller's context, then on the run's.
abbrev pub reason_of : ContextError → ContextError → StoppedReason
reason_of deadline_exceeded run_ctx = run_budget_exhausted
reason_of canceled run_ctx = StoppedReason.cancelled
reason_of live run_ctx = if is_live run_ctx then not_stopped else run_budget_exhausted

unfoldable pub stopped_reason : ContextError → ContextError → List TargetResult → StoppedReason
unfolding incomplete_scheduling
stopped_reason ctx run_ctx results =
    if incomplete_scheduling results then reason_of ctx run_ctx else not_stopped

-- The errors of `execute` behind its parameters' check.
pub data ExecuteError : Type 0 where
  target_error : TargetError → ExecuteError
  run_error : RunError → ExecuteError

abbrev pub lift_target {ℓ} : {A : Type ℓ} → Result TargetError A → Result ExecuteError A
lift_target (ok a) = ok a
lift_target (err e) = err (target_error e)

abbrev pub lift_run {ℓ} : {A : Type ℓ} → Result RunError A → Result ExecuteError A
lift_run (ok a) = ok a
lift_run (err e) = err (run_error e)

-- What `execute` reads outside the schedule: the version, the clock, and the two contexts at the end.
pub record Ending : Type 0 where
  pub version : Bytes
  pub started_at : Time
  pub duration : ℤ
  pub ctx : ContextError
  pub run_ctx : ContextError

abbrev pub report_input : Ending → ℕ → List TargetResult → RunReportInput
report_input e workers results = record {
  svcdoctor_version = e.version;
  started_at = e.started_at;
  duration = e.duration;
  concurrency = pos workers;
  output_mode = local_full;
  stopped_reason = stopped_reason e.ctx e.run_ctx results;
  targets = results;
}

-- The part of `execute` after `wg.Wait()`.
unfoldable pub conclude : List Target → ℕ → Ending → Sched → Result ExecuteError RunReport
conclude targets workers e s = do
  results ← lift_target (fill targets s.results)
  lift_run (new_run_report (report_input e workers results))
