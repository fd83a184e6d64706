-- ===== src/Fleet/Params/Checked.antt =====
-- What `validate` and `NewRegistry` of internal/fleet/run/run.go guarantee of a run.
use svcdoctor.Base.{
  ℕ, ◌≤◌, ◌<◌, Bool, true, false, not, ◌||◌, List, [], ◌∷◌, ◌++◌, Option, none, some, All, ◌≡◌, ◌≢◌,
  refl, ◌∙◌, arith,
}
use svcdoctor.Base.Bytes.{Bytes, eqb, member, sort, member-sort, member-concat}
use svcdoctor.Base.Int.{ℤ, pos, negsuc}
use svcdoctor.Base.Result.{ok, >>=-eq-ok, reject-eq-ok}
use svcdoctor.Domain.RunReport.{below_one}
use svcdoctor.Fleet.Params.{
  Target, Runner, Registry, Params, empty_kind, kind_twice, no_registry, no_resolver, no_version,
  no_targets, below_minimum, above_maximum, no_runner, no_registry_given, above_maximum_test,
  is_empty, register, new_registry, finds, check_runners, validate,
}

-- A runner of this kind was given.
abbrev pub offered : Bytes → List Runner → Bool
offered kind [] = false
offered kind (none ∷ runners) = offered kind runners
offered kind (some k ∷ runners) = eqb k kind || offered kind runners

-- Its target names a kind that has a runner.
abbrev pub HasRunner : Option Registry → Target → Type 0
HasRunner registry t = finds registry t.service ≡ true

-- What a run may rely on.
pub record Startable (p : Params) : Type 0 where
  pub some_target : p.targets ≢ []
  pub version_given : eqb p.version [] ≡ false
  pub workers : ℕ
  pub concurrency_known : p.concurrency ≡ pos workers
  pub some_worker : 0 < workers
  pub bounded : workers ≤ 16
  pub runnable : All (HasRunner p.registry) p.targets

check_runners-ok :
    (registry : Option Registry) (ts : List Target)
    → check_runners registry ts ≡ ok tt
    → All (HasRunner registry) ts
unfolding check_runners
check_runners-ok registry [] h = tt
check_runners-ok registry (t ∷ ts) h =
    let (found, h) = reject-eq-ok (not (finds registry t.service)) no_runner _ h in
    (ground arith, check_runners-ok registry ts h)

within_limits :
    (n : ℤ)
    → below_one n ≡ false
    → above_maximum_test n ≡ false
    → (workers : ℕ) × (n ≡ pos workers) × (0 < workers) × (workers ≤ 16)
within_limits (pos n) b a = (n, refl, ground arith, ground arith)
within_limits (negsuc n) b a = cc

not_empty : (ts : List Target) → is_empty ts ≡ false → ts ≢ []
not_empty [] h e = cc
not_empty (t ∷ ts) h e = cc

-- Parameters that are accepted name at least one target, each of a kind that has a runner, give a
-- version, and ask for one to sixteen workers.
pub validate-Startable : (p : Params) → validate p ≡ ok tt → Startable p
unfolding validate
validate-Startable p h =
    let (registry, h) = reject-eq-ok (no_registry_given p.registry) no_registry _ h in
    let (resolver, h) = reject-eq-ok (not p.has_resolver) no_resolver _ h in
    let (version, h) = reject-eq-ok (eqb p.version []) no_version _ h in
    let (targets, h) = reject-eq-ok (is_empty p.targets) no_targets _ h in
    let (below, h) = reject-eq-ok (below_one p.concurrency) below_minimum _ h in
    let (above, h) = reject-eq-ok (above_maximum_test p.concurrency) above_maximum _ h in
    let (workers, known, some_worker, bounded) = within_limits p.concurrency below above in
    record {
      some_target = not_empty p.targets targets;
      version_given = version;
      workers = workers;
      concurrency_known = known;
      some_worker = some_worker;
      bounded = bounded;
      runnable = check_runners-ok p.registry p.targets h;
    }

register-ok :
    (kinds out : List Bytes) (runners : List Runner)
    → register kinds runners ≡ ok out
    → (x : Bytes) → member x out ≡ (member x kinds || offered x runners)
unfolding register
register-ok kinds out [] h x = ground arith
register-ok kinds out (none ∷ runners) h x = cc
register-ok kinds out (some k ∷ runners) h x =
    let (filled, h) = reject-eq-ok (eqb k []) empty_kind _ h in
    let (fresh, h) = reject-eq-ok (member k kinds) kind_twice _ h in
    ground (arith, register-ok (kinds ++ k ∷ []) out runners h x, member-concat x k kinds)

-- A registry that is accepted finds exactly the kinds of the runners given, and lists the same ones.
pub new_registry-ok :
    (runners : List Runner) (r : Registry)
    → new_registry runners ≡ ok r
    → (kind : Bytes)
    → (finds (some r) kind ≡ offered kind runners) × (member kind r.kinds ≡ offered kind runners)
unfolding new_registry member
new_registry-ok runners r h kind =
    let (kinds, e, h) = >>=-eq-ok (register [] runners) _ h in
    let same : record { runners = kinds; kinds = sort kinds } ≡ r = cc in
    let known = register-ok [] kinds runners e kind in
    rw (← same) (known_of known, member-sort kind kinds ∙ known_of known)
  where
    known_of : {b : Bool} → b ≡ (member kind [] || offered kind runners) → b ≡ offered kind runners
    known_of e = e
