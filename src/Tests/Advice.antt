-- ===== src/Tests/Advice.antt =====
-- Actions that are sentences and actions that are not, and what `Recommend` makes of them.
use svcdoctor.Base.{false, [], ◌∷◌, ◌≡◌, ◌↔◌, ◌⊎◌, refl}
use svcdoctor.Base.Bytes.{Bytes, codes, eqb, member}
use svcdoctor.Base.Result.{ok, err}
use svcdoctor.Base.Runes.{decode, fields, before_space, starts_with, contains}
use svcdoctor.Base.Utf8.{trim_space, is_space, lead}
use svcdoctor.Domain.Vocabulary.{confirmed, high, low}
use svcdoctor.Domain.Recommendation.{remediation, config_change}
use svcdoctor.Diagnosis.ActionText.{shell_character, flag, command, sql, validate_action_text}
use svcdoctor.Diagnosis.ActionText.Sentence.{Sentence, validate_action_text-Sentence}
use svcdoctor.Diagnosis.Advice.{Advice, new_advice, admit_advice, recommend}
use svcdoctor.Diagnosis.Advice.Guarded.{recommendation_of, Permitted, recommend-Permitted}

-- English, although "Grant" is a keyword of SQL.
abbrev action : Bytes
action = codes "Grant the identity permission to run PING; see --user"

action_accepted : validate_action_text action ≡ ok tt
unfolding validate_action_text decode lead fields before_space starts_with contains trim_space
    is_space member eqb
action_accepted = refl

action_sql : validate_action_text (codes "GRANT ALL TO x") ≡ err sql
unfolding validate_action_text decode lead fields before_space starts_with contains trim_space
    is_space member eqb
action_sql = refl

action_query : validate_action_text (codes "select a from b") ≡ err sql
unfolding validate_action_text decode lead fields before_space starts_with contains trim_space
    is_space member eqb
action_query = refl

action_command : validate_action_text (codes "(Kubectl) get pods") ≡ err command
unfolding validate_action_text decode lead fields before_space starts_with contains trim_space
    is_space member eqb
action_command = refl

action_flag : validate_action_text (codes "run tool -h host") ≡ err flag
unfolding validate_action_text decode lead fields before_space starts_with contains trim_space
    is_space member eqb
action_flag = refl

action_pipe : validate_action_text (codes "look | less") ≡ err shell_character
unfolding validate_action_text decode lead fields before_space starts_with contains trim_space
    is_space member eqb
action_pipe = refl

validate_action_text-Sentence_example : (validate_action_text action ≡ ok tt) ↔ Sentence action
validate_action_text-Sentence_example = validate_action_text-Sentence action

abbrev change : Advice
change = record {
  kind = remediation;
  safety = config_change;
  action = action;
  rationale = codes "The server refused PING";
  self_collectable = false;
}

-- Too weak a finding for a change.
recommend_low : recommend change confirmed low ≡ []
unfolding recommend new_advice admit_advice validate_action_text decode lead fields before_space
    starts_with contains trim_space is_space member eqb
recommend_low = refl

recommend-Permitted_example :
    ((recommend change confirmed high ≡ recommendation_of change ∷ [])
      × Permitted change confirmed high)
    ⊎ ((recommend change confirmed high ≡ []) × ¬ Permitted change confirmed high)
recommend-Permitted_example = recommend-Permitted change confirmed high
