-- ===== src/Tests/Values.antt =====
-- One piece of evidence and one finding, and the theorems on their constructors applied to them.
use svcdoctor.Base.{true, [], ◌∷◌, ◌≡◌, refl}
use svcdoctor.Base.Bytes.{codes, eqb, member, insert_sorted, less, sort}
use svcdoctor.Base.Int.{pos}
use svcdoctor.Base.Utf8.{runes, trim_space, drop_spaces, has_control, is_control, is_space}
use svcdoctor.Base.Result.{ok, err}
use svcdoctor.Domain.Names.{
  validate_identifier, validate_dotted_name, split_dots, check_segments, segment_characters,
}
use svcdoctor.Domain.Vocabulary.{
  State, Layer, SubjectKind, FailureClass, Severity, Confidence, FindingKind,
}
use svcdoctor.Domain.Evidence.{
  Evidence, string, fail_without_failure, copy_attributes, new_evidence, zero_subject,
}
use svcdoctor.Domain.Finding.{
  Finding, split_underscores, code_segments, code_characters, finding_code_valid, collect_refs,
  normalize_evidence_refs, copy_recommendations, new_finding,
}
use svcdoctor.Domain.Finding.Accepted.{Admitted, new_finding-Admitted}

abbrev refused : Evidence
refused = record {
  id = codes "tcp/cache:6379";
  subject = record { kind = SubjectKind.endpoint; ref = codes "cache:6379" };
  layer = Layer.tcp;
  step_name = codes "tcp.connect";
  state = State.fail;
  failure_class = FailureClass.tcp_connection_refused;
  attributes = (codes "tcp.address", string (codes "10.0.0.1")) ∷ [];
  started_at = 1;
  elapsed = record { duration = pos 3; measured = true };
}

refused_accepted : new_evidence refused ≡ ok refused
unfolding new_evidence copy_attributes validate_identifier validate_dotted_name split_dots
    check_segments segment_characters eqb runes trim_space has_control is_control drop_spaces
    is_space
refused_accepted = refl

unclassified_refused :
    new_evidence (record refused { failure_class = FailureClass.none }) ≡ err fail_without_failure
unfolding new_evidence validate_identifier validate_dotted_name split_dots check_segments
    segment_characters eqb runes trim_space has_control is_control drop_spaces is_space
unclassified_refused = refl

abbrev pub unreachable : Finding
unreachable = record {
  code = codes "TCP_CONNECTION_REFUSED";
  kind = FindingKind.confirmed;
  severity = Severity.error;
  confidence = Confidence.high;
  layer = Layer.tcp;
  subject = zero_subject;
  summary = codes "nothing listens";
  detail = [];
  evidence_refs = codes "tcp" ∷ codes "dns" ∷ codes "tcp" ∷ [];
  recommendations = [];
  vantage_dependent = true;
  discriminator = [];
}

abbrev pub unreachable_made : Finding
unreachable_made = record unreachable { evidence_refs = codes "dns" ∷ codes "tcp" ∷ [] }

pub unreachable_accepted : new_finding unreachable ≡ ok unreachable_made
unfolding new_finding finding_code_valid split_underscores code_segments code_characters
    normalize_evidence_refs collect_refs copy_recommendations validate_identifier eqb runes
    trim_space has_control is_control drop_spaces is_space member sort insert_sorted less
unreachable_accepted = refl

new_finding-Admitted_example : Admitted unreachable unreachable_made
new_finding-Admitted_example =
    new_finding-Admitted unreachable unreachable_made unreachable_accepted
