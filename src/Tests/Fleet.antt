-- ===== src/Tests/Fleet.antt =====
-- Runs of two targets with one worker, and the theorems on schedules applied to them.
use svcdoctor.Base.{true, false, List, [], ◌∷◌, some, All, ◌≡◌, refl, inl, inr, ◌≢◌, set, arith}
use svcdoctor.Base.Bytes.{member, sort, insert_sorted, less, Bytes, codes, eqb}
use svcdoctor.Base.Utf8.{runes, trim_space, drop_spaces, has_control, is_control, is_space}
use svcdoctor.Base.Result.{ok}
use svcdoctor.Base.Int.{pos}
use svcdoctor.Domain.Names.{validate_identifier, service_valid, new_service_id, service_characters}
use svcdoctor.Domain.RunReport.{not_stopped, RunReport}
use svcdoctor.Fleet.Params.{
  Target, Runner, Registry, Params, register, new_registry, check_runners, validate,
}
use svcdoctor.Fleet.RunOne.{Answers, service_id, run_one}
use svcdoctor.Fleet.RunOne.Total.{Made, run_one-Made}
use svcdoctor.Fleet.Execute.{
  Finished, Sched, start, Reach, begin, next, send, cancel, close, finish, fill, live,
  deadline_exceeded, stopped_reason, Ending, conclude,
}
use svcdoctor.Fleet.Execute.Progress.{Reach-Ends}
use svcdoctor.Fleet.Execute.Schedule.{Inv, Reach-Inv}
use svcdoctor.Fleet.Execute.Report.{
  TargetOk, Covers, DistinctIds, Ran, EndingOk, conclude-Covers, uncancelled-Ran,
}
use svcdoctor.Tests.Reports.{report}

-- A text between quotation marks.
abbrev quote : Bytes → Bytes
quote s = s

abbrev cache : Target
cache = record { id = codes "cache"; service = codes "redis" }

abbrev db : Target
db = record { id = codes "db"; service = codes "postgres" }

abbrev fleet : List Target
fleet = cache ∷ db ∷ []

abbrev answered : Answers
answered = record {
  done_before = false;
  credential = ok tt;
  ran = ok (record { report = some report; incomplete = false });
  done_after = false;
}

run_one-Made_example : Made quote cache answered (run_one quote cache answered)
run_one-Made_example = run_one-Made quote cache answered

abbrev sent_cache : Sched
sent_cache = record (start 2) { sent = 1; running = 0 ∷ [] }

abbrev ran_cache : Sched
ran_cache = record sent_cache {
  running = [];
  results = set sent_cache.results 0 (run_one quote cache answered);
}

-- The first target runs; then the context is done before the second is sent.
abbrev stopped : Sched
stopped = record ran_cache { done = true; closed = true }

stopped-Reach : Reach quote fleet 1 stopped
unfolding start
stopped-Reach =
    next
      (next
        (next (next begin (send (start 2) refl (ground arith) (ground arith)))
          (finish sent_cache 0 cache answered refl refl (λ e. cc) (λ e. cc)))
        (cancel ran_cache))
      (close (record ran_cache { done = true }) (inr refl))

Reach-Inv_example : Inv fleet 1 stopped
Reach-Inv_example = Reach-Inv quote fleet 1 stopped-Reach

abbrev stopped_ending : Ending
stopped_ending = record {
  version = codes "1.0";
  started_at = 1;
  duration = pos 5;
  ctx = deadline_exceeded;
  run_ctx = deadline_exceeded;
}

fleet-TargetOk : All TargetOk fleet
unfolding eqb service_valid new_service_id service_characters service_id
fleet-TargetOk = ((refl, refl), ((refl, refl), tt))

fleet-DistinctIds : DistinctIds fleet
unfolding eqb
fleet-DistinctIds = (refl, (refl, tt))

ending-EndingOk : EndingOk 1 stopped_ending
unfolding validate_identifier eqb runes trim_space has_control is_control drop_spaces is_space
ending-EndingOk = record {
  version_ok = refl;
  started = refl;
  duration_ok = refl;
  some_worker = ground arith;
}

fleet_nonempty : fleet ≢ []
fleet_nonempty e = cc

conclude-Covers_example :
    (r : RunReport) × (conclude fleet 1 stopped_ending stopped ≡ ok r) × Covers fleet r.targets
conclude-Covers_example =
    conclude-Covers quote fleet 1 stopped stopped_ending stopped-Reach (refl, refl) fleet_nonempty
      fleet-TargetOk fleet-DistinctIds ending-EndingOk

abbrev sent_db : Sched
sent_db = record ran_cache { sent = 2; running = 1 ∷ [] }

abbrev ran_both : Sched
ran_both = record sent_db {
  running = [];
  results = set ran_cache.results 1 (run_one quote db answered);
}

abbrev whole : Sched
whole = record ran_both { closed = true }

whole-Reach : Reach quote fleet 1 whole
unfolding start
whole-Reach =
    next
      (next
        (next
          (next (next begin (send (start 2) refl (ground arith) (ground arith)))
            (finish sent_cache 0 cache answered refl refl (λ e. cc) (λ e. cc)))
          (send ran_cache refl (ground arith) (ground arith)))
        (finish sent_db 1 db answered refl refl (λ e. cc) (λ e. cc)))
      (close ran_both (inl refl))

uncancelled-Ran_example :
    (fill fleet whole.results ≡ ok whole.results)
    × All Ran whole.results
    × (stopped_reason live live whole.results ≡ not_stopped)
unfolding start
uncancelled-Ran_example =
    uncancelled-Ran quote fleet 1 whole (record stopped_ending { ctx = live; run_ctx = live })
      whole-Reach (refl, refl) refl

abbrev runners : List Runner
runners = some (codes "redis") ∷ some (codes "postgres") ∷ []

abbrev registry : Registry
registry = record {
  runners = codes "redis" ∷ codes "postgres" ∷ [];
  kinds = codes "postgres" ∷ codes "redis" ∷ [];
}

registry_accepted : new_registry runners ≡ ok registry
unfolding new_registry register eqb member sort insert_sorted less
registry_accepted = refl

abbrev params : Params
params = record {
  targets = fleet;
  concurrency = pos 4;
  registry = some registry;
  has_resolver = true;
  version = codes "1.0";
}

params_accepted : validate params ≡ ok tt
unfolding validate check_runners eqb member
params_accepted = refl

Reach-Ends_example : (u : Sched) × Reach quote fleet 1 u × Finished u × (u.done ≡ (start 2).done)
Reach-Ends_example = Reach-Ends quote fleet 1 (ground arith) (start 2) begin
