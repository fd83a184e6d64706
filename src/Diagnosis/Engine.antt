-- ===== src/Diagnosis/Engine.antt =====
-- internal/diagnosis/engine.go and outcome.go: the evaluation of the rules of a registry.
pub mod Isolated
pub mod Reportable
use svcdoctor.Base.{Bool, true, false, List, [], ◌∷◌, ◌++◌, map, Option, none, some}
use svcdoctor.Base.Bytes.{Bytes, codes}
use svcdoctor.Base.Result.{Result, ok, err}
use svcdoctor.Domain.Finding.{Finding}
use svcdoctor.Domain.Report.{sort_findings}
use svcdoctor.Diagnosis.Groups.{Attributed}
use svcdoctor.Diagnosis.Merge.{ConvergeError}
use svcdoctor.Diagnosis.Converge.{converge}
use svcdoctor.Diagnosis.Registry.{RuleContext, Rule, RegisteredRule}

-- `failures` are the rules whose output was discarded.
pub record Outcome : Type 0 where
  pub findings : List Finding
  pub failures : List Bytes

abbrev pub eval_of : Option Rule → RuleContext → Option (List Finding)
eval_of none ctx = none
eval_of (some rule) ctx = rule ctx

-- A panic of a rule, a nil one included, is recovered.
unfoldable pub evaluate_one : RegisteredRule → RuleContext → Option (List Finding)
evaluate_one rule ctx = eval_of rule.eval ctx

-- `ok`
abbrev pub is_some : Option (List Finding) → Bool
is_some none = false
is_some (some findings) = true

abbrev pub attribute : Bytes → List Finding → List Attributed
attribute id findings = map (λ f. record { rule = id; finding = f }) findings

abbrev pub failed_of : RegisteredRule → Option (List Finding) → List Bytes → List Bytes
failed_of rule none failures = rule.id ∷ failures
failed_of rule (some findings) failures = failures

abbrev pub produced_of : RegisteredRule → Option (List Finding) → List Attributed → List Attributed
produced_of rule none produced = produced
produced_of rule (some findings) produced = attribute rule.id findings ++ produced

-- The two lists that the loop of `Evaluate` grows.
unfoldable pub failures : RuleContext → List RegisteredRule → List Bytes
unfolding evaluate_one
failures ctx [] = []
failures ctx (rule ∷ rules) = failed_of rule (evaluate_one rule ctx) (failures ctx rules)

unfoldable pub produced : RuleContext → List RegisteredRule → List Attributed
unfolding evaluate_one
produced ctx [] = []
produced ctx (rule ∷ rules) = produced_of rule (evaluate_one rule ctx) (produced ctx rules)

abbrev pub convergence_failure : Bytes
convergence_failure = codes "diag/convergence"

abbrev pub outcome_of : Result ConvergeError (List Finding) → List Bytes → Outcome
outcome_of (err e) failed = record { findings = []; failures = failed ++ convergence_failure ∷ [] }
outcome_of (ok merged) failed = record { findings = sort_findings merged; failures = failed }

abbrev pub outcome_from : List Attributed → List Bytes → Outcome
outcome_from [] failed = record { findings = []; failures = failed }
outcome_from (af ∷ rest) failed = outcome_of (converge (af ∷ rest)) failed

-- `Engine.Evaluate`
unfoldable pub evaluate : List RegisteredRule → RuleContext → Outcome
unfolding failures produced
evaluate rules ctx = outcome_from (produced ctx rules) (failures ctx rules)
