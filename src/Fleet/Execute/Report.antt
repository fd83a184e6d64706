-- ===== src/Fleet/Execute/Report.antt =====
-- What `execute` of internal/fleet/run/execute.go returns when every worker is done.
use svcdoctor.Base.{
  ℕ, zero, suc, ◌<◌, Bool, true, false, not, ◌&&◌, List, [], ◌∷◌, some, length, get_elem?, All, ◌≡◌,
  ◌≢◌, refl, ap, ◌∙◌, ◌⊎◌, inl, inr, ◌↔◌, if◌then◌else◌, arith, Bool-cases,
}
use svcdoctor.Base.Bytes.{Bytes, eqb}
use svcdoctor.Base.Result.{ok, ◌>>=◌}
use svcdoctor.Base.Int.{is_neg}
use svcdoctor.Domain.Names.{service_valid, validate_identifier}
use svcdoctor.Domain.Evidence.{time_is_zero}
use svcdoctor.Domain.RunReport.{
  not_started, state_unspecified, TargetResult, zero_target_result, check_target_identity,
  not_started_target, StoppedReason, not_stopped, RunReport, is_empty,
}
use svcdoctor.Domain.RunReport.Correct.{HasState}
use svcdoctor.Domain.RunReport.Accepted.{absent, Distinct, report_of, new_run_report-Reportable}
use svcdoctor.Fleet.Params.{Target}
use svcdoctor.Fleet.RunOne.{service_id}
use svcdoctor.Fleet.Execute.Schedule.{Slot, Inv, Reach-Inv}
use svcdoctor.Fleet.Execute.{
  Sched, Reach, Finished, fill, ContextError, is_live, was_stopped, incomplete_scheduling, canceled,
  stopped_reason, among, Ending, report_input, conclude,
}

-- What the configuration guarantees of a target.
abbrev pub TargetOk : Target → Type 0
TargetOk t = (eqb t.id [] ≡ false) × (service_valid (service_id t) ≡ true)

-- A result for each target, in order, each with a state.
abbrev pub Covers : List Target → List TargetResult → Type 0
Covers [] [] = Unit
Covers [] (r ∷ rs) = ⊥
Covers (t ∷ ts) [] = ⊥
Covers (t ∷ ts) (r ∷ rs) = (r.target_id ≡ t.id) × (state_unspecified r.state ≡ false) × Covers ts rs

-- The slots of `results`, each empty or of its own target.
abbrev Slots : Bool → List Target → List TargetResult → Type 0
Slots done ts rs =
    (i : ℕ) (t : Target) (r : TargetResult)
    → get_elem? ts i ≡ some t
    → get_elem? rs i ≡ some r
    → (r ≡ zero_target_result) ⊎ Slot done t r

not_started_target-ok :
    (t : Target)
    → TargetOk t
    → not_started_target t.id (service_id t)
      ≡ ok (record zero_target_result {
        target_id = t.id;
        service = service_id t;
        state = not_started;
      })
unfolding not_started_target check_target_identity
not_started_target-ok t (id, service) = rw (id, service)

fill-Covers :
    (done : Bool) (ts : List Target) (rs : List TargetResult)
    → length rs ≡ length ts
    → Slots done ts rs
    → All TargetOk ts
    → (out : List TargetResult) × (fill ts rs ≡ ok out) × Covers ts out
unfolding fill
fill-Covers done [] [] n s h = ([], refl, tt)
fill-Covers done [] (r ∷ rs) n s h = absurd (omega arith)
fill-Covers done (t ∷ ts) [] n s h = absurd (omega arith)
fill-Covers done (t ∷ ts) (r ∷ rs) n s h =
    let (out, e, c) =
      fill-Covers done ts rs (omega arith) (λ i u q hu hq. s (suc i) u q hu hq) h.1 in
    first out e c (s zero t r refl refl)
  where
    first :
        (out : List TargetResult)
        → fill ts rs ≡ ok out
        → Covers ts out
        → (r ≡ zero_target_result) ⊎ Slot done t r
        → (all : List TargetResult) × (((if state_unspecified r.state
                then not_started_target t.id (service_id t)
                else ok r)
              >>= λ a. fill ts rs >>= λ b. ok (a ∷ b))
            ≡ ok all)
          × Covers (t ∷ ts) all
    first out e c (inl empty) =
        let waiting : state_unspecified r.state ≡ true =
          ap (λ x. state_unspecified x.state) empty in
        (
          record zero_target_result {
            target_id = t.id;
            service = service_id t;
            state = not_started;
          }
              ∷ out,
          rw (waiting, not_started_target-ok t h.0, e) refl,
          (refl, refl, c),
        )
    first out e c (inr slot) = (
      r ∷ out,
      rw (slot.state_known, e) refl,
      (slot.id_known ∙ (rw (h.0.0) refl), slot.state_known, c),
    )

-- When every slot holds a result, nothing is filled in.
fill-kept :
    (ts : List Target) (rs : List TargetResult)
    → length rs ≡ length ts
    → All HasState rs
    → fill ts rs ≡ ok rs
unfolding fill
fill-kept [] rs n h = refl
fill-kept (t ∷ ts) [] n h = absurd (omega arith)
fill-kept (t ∷ ts) (r ∷ rs) n h = rw (h.0, fill-kept ts rs (omega arith) h.1)

Covers-HasState : (ts : List Target) (rs : List TargetResult) → Covers ts rs → All HasState rs
Covers-HasState [] [] c = tt
Covers-HasState [] (r ∷ rs) c = absurd c
Covers-HasState (t ∷ ts) [] c = absurd c
Covers-HasState (t ∷ ts) (r ∷ rs) c = (c.1, Covers-HasState ts rs c.2)

-- No id stands twice in the configuration.
abbrev pub absent_id : Bytes → List Target → Bool
absent_id id [] = true
absent_id id (t ∷ ts) = not (eqb t.id id) && absent_id id ts

abbrev pub DistinctIds : List Target → Type 0
DistinctIds [] = Unit
DistinctIds (t ∷ ts) = (absent_id t.id ts ≡ true) × DistinctIds ts

Covers-absent :
    (id : Bytes) (ts : List Target) (rs : List TargetResult)
    → Covers ts rs
    → absent_id id ts ≡ true
    → absent id rs ≡ true
Covers-absent id [] [] c h = refl
Covers-absent id [] (r ∷ rs) c h = absurd c
Covers-absent id (t ∷ ts) [] c h = absurd c
Covers-absent id (t ∷ ts) (r ∷ rs) c h = rw (c.0) (ground (arith, Covers-absent id ts rs c.2))

Covers-Distinct :
    (ts : List Target) (rs : List TargetResult) → Covers ts rs → DistinctIds ts → Distinct rs
Covers-Distinct [] [] c d = tt
Covers-Distinct [] (r ∷ rs) c d = absurd c
Covers-Distinct (t ∷ ts) [] c d = absurd c
Covers-Distinct (t ∷ ts) (r ∷ rs) c d =
    (rw (c.0) (Covers-absent t.id ts rs c.2 d.0), Covers-Distinct ts rs c.2 d.1)

get_some : (ts : List Target) (i : ℕ) → i < length ts → (t : Target) × (get_elem? ts i ≡ some t)
get_some [] i h = elim h [ ]
get_some (t ∷ ts) zero h = (t, refl)
get_some (t ∷ ts) (suc i) h = get_some ts i (omega arith)

-- A result of a target that ran to its end.
abbrev pub Ran : TargetResult → Type 0
Ran r = (state_unspecified r.state ≡ false) × (was_stopped r.state ≡ false)

All-of_index :
    (rs : List TargetResult)
    → ((i : ℕ) (r : TargetResult) → i < length rs → get_elem? rs i ≡ some r → Ran r)
    → All Ran rs
All-of_index [] h = tt
All-of_index (r ∷ rs) h =
    (h zero r (omega arith) refl, All-of_index rs (λ i q lt e. h (suc i) q (omega arith) e))

none_stopped : (rs : List TargetResult) → All Ran rs → incomplete_scheduling rs ≡ false
unfolding incomplete_scheduling
none_stopped [] h = refl
none_stopped (r ∷ rs) h = rw (h.0.1) (none_stopped rs h.1)

Ran-HasState : (rs : List TargetResult) → All Ran rs → All HasState rs
Ran-HasState [] h = tt
Ran-HasState (r ∷ rs) h = (h.0.0, Ran-HasState rs h.1)

-- What `execute` needs beside its targets for the report to be made.
pub record EndingOk (workers : ℕ) (e : Ending) : Type 0 where
  pub version_ok : validate_identifier e.version ≡ ok tt
  pub started : time_is_zero e.started_at ≡ false
  pub duration_ok : is_neg e.duration ≡ false
  pub some_worker : 0 < workers

module _ (quote : Bytes → Bytes) (targets : List Target) (workers : ℕ) (s : Sched) where
  fill-Reach :
      Reach quote targets workers s
      → All TargetOk targets
      → (out : List TargetResult) × (fill targets s.results ≡ ok out) × Covers targets out
  fill-Reach r h =
      let inv = Reach-Inv quote targets workers r in
      fill-Covers s.done targets s.results inv.sizes inv.slots h

  -- When the dispatcher and the workers are done, `execute` returns a report with one result for
  -- each target, in the order of the configuration and under its id, each with a state. This
  -- holds for every schedule, all answers and every moment of a cancellation, provided there is a
  -- target and a worker, the ids are distinct and not empty, the services valid, the version an
  -- identifier, the start set and the duration not negative.
  pub conclude-Covers :
      (e : Ending)
      → Reach quote targets workers s
      → Finished s
      → targets ≢ []
      → All TargetOk targets
      → DistinctIds targets
      → EndingOk workers e
      → (report : RunReport) × (conclude targets workers e s ≡ ok report)
        × Covers targets report.targets
  unfolding conclude
  conclude-Covers e r f some_target h d ending =
      let (out, filled, c) = fill-Reach r h in
      let accepted = new_run_report-Reportable (report_input e workers out) (record {
        version_ok = ending.version_ok;
        started = ending.started;
        duration_ok = ending.duration_ok;
        concurrency_ok = ground (arith, ending.some_worker);
        mode_ok = refl;
        nonempty = covered targets out c some_target;
        states = Covers-HasState targets out c;
        distinct = Covers-Distinct targets out c d;
      }) in
      (report_of (report_input e workers out), rw (filled, accepted) refl, c)
    where
      covered :
          (ts : List Target) (rs : List TargetResult) → Covers ts rs → ts ≢ [] → is_empty rs ≡ false
      covered [] rs c ne = absurd (ne refl)
      covered (t ∷ ts) [] c ne = absurd c
      covered (t ∷ ts) (q ∷ rs) c ne = refl

  All-Ran : Reach quote targets workers s → Finished s → s.done ≡ false → All Ran s.results
  All-Ran r f live_run =
      let inv = Reach-Inv quote targets workers r in
      let sent : s.sent ≡ length targets = ground (arith, inv.closed_why f.0) in
      All-of_index s.results (λ i q lt e. one inv sent i q lt e)
    where
      one :
          Inv targets workers s
          → s.sent ≡ length targets
          → (i : ℕ) (q : TargetResult) → i < length s.results
          → get_elem? s.results i ≡ some q
          → Ran q
      one inv sent i q lt e =
          let (t, at) = get_some targets i (omega (arith, inv.sizes)) in
          let idle : among i s.running ≡ false = rw (f.1) refl in
          let state = inv.ended i q (omega (arith, inv.sizes)) idle e in
          (state, not_stopped_lem q state (inv.slots i t q at e))
        where
          not_stopped_lem :
              (q : TargetResult) {t : Target}
              → state_unspecified q.state ≡ false
              → (q ≡ zero_target_result) ⊎ Slot s.done t q
              → was_stopped q.state ≡ false
          not_stopped_lem q state (inl e) =
              absurd (ground (arith, state, ap (λ x. state_unspecified x.state) e))
          not_stopped_lem q state (inr m) = elim (Bool-cases (was_stopped q.state)) [
            | inl was ↦ absurd (ground (arith, m.stopped_known was))
            | inr ran ↦ ran
          ]

  -- In a run whose context is never done every target ends on its own: nothing is filled in, no
  -- result says not started or cancelled, and the run has no stopped reason.
  pub uncancelled-Ran :
      (e : Ending)
      → Reach quote targets workers s
      → Finished s
      → s.done ≡ false
      → (fill targets s.results ≡ ok s.results)
        × All Ran s.results
        × (stopped_reason e.ctx e.run_ctx s.results ≡ not_stopped)
  unfolding stopped_reason
  uncancelled-Ran e r f live_run =
      let ran = All-Ran r f live_run in
      (
        fill-kept targets s.results (Reach-Inv quote targets workers r).sizes
            (Ran-HasState s.results ran),
        ran,
        rw (none_stopped s.results ran),
      )

-- The stopped reason is set exactly when some target was not started or was cancelled and one of the
-- two contexts, the caller's or the run's, is done; it says cancelled exactly when some target was
-- not started or was cancelled and the caller's context was cancelled.
pub stopped_reason_iff :
    (ctx run_ctx : ContextError) (results : List TargetResult)
    → ((stopped_reason ctx run_ctx results ≢ not_stopped) ↔ (
        (incomplete_scheduling results ≡ true)
        × ((is_live ctx ≡ false) ⊎ (is_live run_ctx ≡ false))))
      × ((stopped_reason ctx run_ctx results ≡ StoppedReason.cancelled)
          ↔ ((incomplete_scheduling results ≡ true) × (ctx ≡ canceled)))
unfolding stopped_reason
stopped_reason_iff ctx run_ctx results = ground arith
