-- ===== src/Fleet/Params.antt =====
-- internal/fleet/run/run.go: the runner registry and the parameters of a run.
pub mod Checked
use svcdoctor.Base.{ℕ, Bool, true, false, not, List, [], ◌∷◌, ◌++◌, Option, none, some, ltb}
use svcdoctor.Base.Bytes.{Bytes, eqb, member, sort}
use svcdoctor.Base.Int.{ℤ, pos, negsuc}
use svcdoctor.Base.Result.{Result, ok, err, ◌>>=◌, ◌>>◌, reject}
use svcdoctor.Domain.RunReport.{below_one}

-- `config.Target`, the parts that the executor reads; its timeout bounds a call that is a
-- parameter here.
pub record Target : Type 0 where
  pub id : Bytes
  pub service : Bytes

-- The errors of this package; each wraps `ErrRun`.
pub data ParamsError : Type 0 where
  nil_runner empty_kind kind_twice : ParamsError
  no_registry no_resolver no_version no_targets below_minimum above_maximum : ParamsError
  no_runner : ParamsError

-- A runner is known by its kind; `none` is a nil runner.
abbrev pub Runner : Type 0
Runner = Option Bytes

-- `Registry`: the kinds are the keys of `runners`, and `kinds` lists them sorted.
pub record Registry : Type 0 where
  pub runners : List Bytes
  pub kinds : List Bytes

-- The loop of `NewRegistry`.
unfoldable pub register : List Bytes → List Runner → Result ParamsError (List Bytes)
register kinds [] = ok kinds
register kinds (none ∷ runners) = err nil_runner
register kinds (some kind ∷ runners) = do
  reject (eqb kind []) empty_kind
  reject (member kind kinds) kind_twice
  register (kinds ++ kind ∷ []) runners

unfoldable pub new_registry : List Runner → Result ParamsError Registry
unfolding register
new_registry runners = do
  kinds ← register [] runners
  ok (record { runners = kinds; kinds = sort kinds })

-- `r.lookup(kind)` finds a runner; a nil registry finds none.
abbrev pub finds : Option Registry → Bytes → Bool
finds none kind = false
finds (some r) kind = member kind r.runners

abbrev pub max_concurrency : ℕ
max_concurrency = 16

abbrev above_maximum_test : ℤ → Bool
above_maximum_test (pos n) = ltb max_concurrency n
above_maximum_test (negsuc n) = false

pub record Params : Type 0 where
  pub targets : List Target
  pub concurrency : ℤ
  pub registry : Option Registry
  pub has_resolver : Bool
  pub version : Bytes

abbrev no_registry_given : Option Registry → Bool
no_registry_given none = true
no_registry_given (some r) = false

abbrev pub is_empty : List Target → Bool
is_empty [] = true
is_empty (t ∷ ts) = false

-- The loop of `validate` over the targets.
unfoldable pub check_runners : Option Registry → List Target → Result ParamsError (Unit {0})
check_runners registry [] = ok tt
check_runners registry (t ∷ ts) = do
  reject (not (finds registry t.service)) no_runner
  check_runners registry ts

unfoldable pub validate : Params → Result ParamsError (Unit {0})
unfolding check_runners
validate p = do
  reject (no_registry_given p.registry) no_registry
  reject (not p.has_resolver) no_resolver
  reject (eqb p.version []) no_version
  reject (is_empty p.targets) no_targets
  reject (below_one p.concurrency) below_minimum
  reject (above_maximum_test p.concurrency) above_maximum
  check_runners p.registry p.targets
