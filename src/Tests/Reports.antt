-- ===== src/Tests/Reports.antt =====
-- A report of one target and a run of two, and the theorems applied to them.
use svcdoctor.Base.{true, false, List, [], ◌∷◌, none, some, All, if◌then◌else◌, ◌≡◌, refl, ◌∷◌}
use svcdoctor.Base.Bytes.{Bytes, codes, eqb, member, insert_sorted, less, sort}
use svcdoctor.Base.Utf8.{runes, trim_space, drop_spaces, has_control, is_control, is_space}
use svcdoctor.Base.Result.{ok, err}
use svcdoctor.Base.Int.{pos}
use svcdoctor.Base.Sort.{sort_by, insert_by}
use svcdoctor.Domain.Names.{validate_identifier}
use svcdoctor.Domain.Vocabulary.{Severity, Confidence, Layer, FindingKind}
use svcdoctor.Domain.Evidence.{zero_subject}
use svcdoctor.Domain.Recommendation.{
  Recommendation, observe, next_evidence, new_classified_recommendation,
}
use svcdoctor.Domain.Finding.{Finding, normalize_evidence_refs, collect_refs}
use svcdoctor.Domain.Graph.Builder.{Graph, node}
use svcdoctor.Domain.Meta.{
  ReportSecurity, RedactionCounts, new_report_security, new_shareable_report_security, local_host,
  local_full, shareable_redacted, mode_not_local, no_redactions,
}
use svcdoctor.Domain.Meta.Shareable.{new_shareable_report_security-once}
use svcdoctor.Domain.Summary.{
  derive_summary, nodes_of, nodes_in, count_findings, count_finding, count_nodes, count_evidence,
}
use svcdoctor.Domain.Summary.Correct.{HasLayer}
use svcdoctor.Domain.Summary.Broken.{
  Summarises, FirstBroken, derive_summary-Summarises, derive_summary-FirstBroken,
}
use svcdoctor.Domain.Report.{
  ReportInput, Report, new_report, check_findings, validate_refs, validate_evidence_refs,
  sort_findings, compare_findings,
}
use svcdoctor.Domain.Report.Correct.{Accepted, new_report-Accepted}
use svcdoctor.Domain.RunReport.{
  completed, not_started, not_stopped, TargetResult, zero_target_result, derive_run_summary,
  RunReportInput, new_run_report, has_problems,
}
use svcdoctor.Domain.RunReport.Correct.{exists, leaves_incomplete}
use svcdoctor.Domain.RunReport.Accepted.{
  Reportable, report_of, new_run_report-Reportable, new_run_report-ok,
}
use svcdoctor.Cli.Exit.{
  run_exit_code, exit_incomplete, exit_problems_found, exit_ok, run_exit_code-new_run_report,
}
use svcdoctor.Tests.Graph.{both}

abbrev pub pair_graph : Graph
pair_graph = record {
  order = codes "dns" ∷ codes "tcp" ∷ [];
  nodes = both.nodes;
  parents = [];
  children = [];
  blocked_by = [];
}

abbrev finding : Severity → Bytes → Finding
finding severity summary = record {
  code = codes "DNS_FAILED";
  kind = FindingKind.confirmed;
  severity = severity;
  confidence = Confidence.high;
  layer = Layer.dns;
  subject = zero_subject;
  summary = summary;
  detail = [];
  evidence_refs = codes "dns" ∷ [];
  recommendations = [];
  vantage_dependent = false;
  discriminator = [];
}

abbrev findings : List Finding
findings = finding Severity.info (codes "note") ∷ finding Severity.error (codes "fault") ∷ []

derive_summary-Summarises_example :
    Summarises pair_graph findings (derive_summary pair_graph findings)
derive_summary-Summarises_example = derive_summary-Summarises pair_graph findings

pair_layers : All HasLayer (nodes_of pair_graph)
unfolding nodes_in node eqb
pair_layers = (refl, (refl, tt))

derive_summary-FirstBroken_example :
    FirstBroken (derive_summary pair_graph findings).first_broken_layer (nodes_of pair_graph)
derive_summary-FirstBroken_example = derive_summary-FirstBroken pair_graph findings pair_layers

-- A later layer that failed does not replace an earlier one.
first_broken_dns : (derive_summary pair_graph findings).first_broken_layer ≡ Layer.dns
unfolding derive_summary count_findings count_finding count_nodes count_evidence nodes_in node eqb
first_broken_dns = refl

abbrev refs : List Bytes
refs = codes "tcp" ∷ codes "dns" ∷ codes "tcp" ∷ []

abbrev sorted_refs : List Bytes
sorted_refs = codes "dns" ∷ codes "tcp" ∷ []

normalize_refs : normalize_evidence_refs refs ≡ ok sorted_refs
unfolding normalize_evidence_refs collect_refs validate_identifier eqb runes trim_space has_control
    is_control drop_spaces is_space member sort insert_sorted less
normalize_refs = refl

abbrev advice : Recommendation
advice = record {
  action = codes "run dig";
  kind = next_evidence;
  safety = observe;
  rationale = codes "it shows the answer";
  self_collectable = true;
}

advice_accepted : new_classified_recommendation advice ≡ ok advice
unfolding new_classified_recommendation validate_identifier eqb runes trim_space has_control
    is_control drop_spaces is_space
advice_accepted = refl

abbrev pub input : ReportInput
input = record {
  run = record {
    svcdoctor_version = codes "1.0";
    started_at = 1;
    duration = pos 5;
    service = codes "redis";
  };
  target = record { requested = codes "cache"; normalized = [] };
  vantage = record { source = local_host; host = codes "here" };
  graph = pair_graph;
  findings = findings;
  security = record {
    output_mode = local_full;
    tls_verification_disabled = false;
    credential_forwarding_enabled = false;
    redactions = no_redactions;
  };
}

local_accepted : new_report_security local_full false false ≡ ok input.security
unfolding new_report_security
local_accepted = refl

abbrev sorted_findings : List Finding
sorted_findings = finding Severity.error (codes "fault") ∷ finding Severity.info (codes "note") ∷ []

abbrev pub report : Report
report = record {
  run = input.run;
  target = input.target;
  vantage = input.vantage;
  graph = pair_graph;
  findings = sorted_findings;
  summary = derive_summary pair_graph sorted_findings;
  security = input.security;
}

report_accepted : new_report input ≡ ok report
unfolding new_report check_findings validate_refs validate_evidence_refs sort_findings sort_by
    insert_by compare_findings node eqb
report_accepted = refl

new_report-Accepted_example : Accepted input report
new_report-Accepted_example = new_report-Accepted input report report_accepted

abbrev results : List TargetResult
results =
    record zero_target_result {
      target_id = codes "a";
      service = codes "redis";
      state = completed;
      report = some report;
    }
    ∷ record zero_target_result {
      target_id = codes "b";
      service = codes "redis";
      state = not_started;
    }
    ∷ []

abbrev run_input : RunReportInput
run_input = record {
  svcdoctor_version = codes "1.0";
  started_at = 1;
  duration = pos 5;
  concurrency = pos 2;
  output_mode = local_full;
  stopped_reason = not_stopped;
  targets = results;
}

run_input-Reportable : Reportable run_input
unfolding validate_identifier eqb runes trim_space has_control is_control drop_spaces is_space
run_input-Reportable = record {
  version_ok = refl;
  started = refl;
  duration_ok = refl;
  concurrency_ok = refl;
  mode_ok = refl;
  nonempty = refl;
  states = (refl, (refl, tt));
  distinct = (refl, (refl, tt));
}

run_accepted : new_run_report run_input ≡ ok (report_of run_input)
run_accepted = new_run_report-Reportable run_input run_input-Reportable

new_run_report-ok_example :
    Reportable run_input
    × ((report_of run_input).targets ≡ results)
    × ((report_of run_input).summary ≡ derive_run_summary results)
new_run_report-ok_example = new_run_report-ok run_input (report_of run_input) run_accepted

run_exit_code-new_run_report_example : run_exit_code (report_of run_input) none ≡ (
    if exists leaves_incomplete results
    then exit_incomplete
    else if exists has_problems results
    then exit_problems_found
    else exit_ok)
run_exit_code-new_run_report_example =
    run_exit_code-new_run_report run_input (report_of run_input) run_accepted

abbrev one_redaction : RedactionCounts
one_redaction = record no_redactions { hostname = pos 1 }

new_shareable_report_security-once_example :
    (shared : ReportSecurity) × (new_shareable_report_security input.security one_redaction
      ≡ ok shared)
    × (shared.output_mode ≡ shareable_redacted)
    × (shared.tls_verification_disabled ≡ false)
    × (shared.credential_forwarding_enabled ≡ false)
    × (shared.redactions ≡ one_redaction)
    × (new_report_security shareable_redacted false false ≡ err mode_not_local)
    × (new_shareable_report_security shared one_redaction ≡ err mode_not_local)
new_shareable_report_security-once_example =
    new_shareable_report_security-once local_full false false input.security one_redaction
      local_accepted refl
