-- ===== src/Diagnosis/Registry.antt =====
-- internal/diagnosis/registry.go, rule.go and rulecontext.go: rules and their registration.
use svcdoctor.Base.{Bool, true, false, not, ◌&&◌, List, [], ◌∷◌, ◌++◌, map, Option, none, some}
use svcdoctor.Base.Bytes.{Bytes, eqb, member}
use svcdoctor.Base.Result.{Result, ok, err, ◌>>◌, reject}
use svcdoctor.Domain.Meta.{Vantage}
use svcdoctor.Domain.Graph.Builder.{Graph}
use svcdoctor.Domain.Finding.{Finding}
use svcdoctor.Diagnosis.RuleId.{RuleIdError, new_rule_id, rule_id_valid}

pub record RuleContext : Type 0 where
  pub graph : Graph
  pub vantage : Vantage
  pub incomplete : Bool

-- A rule returns findings, or panics (`none`).
abbrev pub Rule : Type 0
Rule = RuleContext → Option (List Finding)

-- `eval` is none for a nil function.
pub record RegisteredRule : Type 0 where
  pub id : Bytes
  pub eval : Option Rule

abbrev is_nil : Option Rule → Bool
is_nil none = true
is_nil (some rule) = false

abbrev pub registered_rule_is_zero : RegisteredRule → Bool
registered_rule_is_zero r = eqb r.id [] && is_nil r.eval

-- `bad_id` and `invalid_id` wrap `ErrInvalidRuleID`, the others `ErrInvalidRuleSet`.
pub data RuleSetError : Type 0 where
  bad_id : RuleIdError → RuleSetError
  invalid_id nil_rule already_registered zero_rule : RuleSetError

pub record RuleSet : Type 0 where
  pub rules : List RegisteredRule
  pub seen : List Bytes
  pub error : Option RuleSetError

unfoldable pub new_rule_set : RuleSet
new_rule_set = record { rules = []; seen = []; error = none }

abbrev fail : RuleSet → RuleSetError → RuleSet
fail s e = record s { error = some e }

abbrev insert_rule : RuleSet → Bytes → Option Rule → Bool → RuleSet
insert_rule s id none dup = fail s nil_rule
insert_rule s id (some rule) true = fail s already_registered
insert_rule s id (some rule) false = record s {
  rules = s.rules ++ record { id = id; eval = some rule } ∷ [];
  seen = s.seen ++ id ∷ [];
}

abbrev insert_checked : RuleSet → Result RuleIdError Bytes → Option Rule → RuleSet
insert_checked s (err e) eval = fail s (bad_id e)
insert_checked s (ok id) eval = insert_rule s id eval (member id s.seen)

abbrev unless_failed : RuleSet → Option RuleSetError → RuleSet → RuleSet
unless_failed s none next = next
unless_failed s (some e) next = s

-- `RuleSet.Add`
unfoldable pub add : RuleSet → Bytes → Option Rule → RuleSet
add s id eval = unless_failed s s.error (insert_checked s (new_rule_id id) eval)

-- The loop of `RuleSet.Freeze`.
unfoldable pub check_rules : List Bytes → List RegisteredRule → Result RuleSetError (Unit {0})
check_rules seen [] = ok tt
check_rules seen (r ∷ rules) = do
  reject (registered_rule_is_zero r) zero_rule
  reject (not (rule_id_valid r.id)) invalid_id
  reject (is_nil r.eval) nil_rule
  reject (member r.id seen) already_registered
  check_rules (r.id ∷ seen) rules

abbrev frozen_of :
    Option RuleSetError → List RegisteredRule → Result RuleSetError (List RegisteredRule)
frozen_of (some e) rules = err e
frozen_of none rules = do check_rules [] rules; ok rules

-- `RuleSet.Freeze`; a `Registry` is its rules.
unfoldable pub freeze_rules : RuleSet → Result RuleSetError (List RegisteredRule)
unfolding check_rules
freeze_rules s = frozen_of s.error s.rules

abbrev pub ids_of : List RegisteredRule → List Bytes
ids_of rules = map (λ r. r.id) rules
