-- ===== src/Domain/Finding/Accepted.antt =====
-- What holds of a finding that `NewFinding` of internal/domain/finding.go accepts.
use svcdoctor.Base.{true, false, not, ◌&&◌, [], ◌∷◌, All, ◌≡◌, ◌≢◌, refl, ap}
use svcdoctor.Base.Bytes.{Bytes, eqb, member}
use svcdoctor.Base.Result.{ok}
use svcdoctor.Domain.Vocabulary.{severity_valid, layer_valid}
use svcdoctor.Domain.Finding.Refs.{Increasing}
use svcdoctor.Domain.Finding.Valid.{HasAction, new_finding-Valid}
use svcdoctor.Domain.Finding.{
  Finding, finding_code_valid, is_confirmed, finding_is_zero, new_finding,
}

-- A finding that was accepted, against what was given.
pub record Admitted (given f : Finding) : Type 0 where
  pub code_kept : f.code ≡ given.code
  pub summary_kept : f.summary ≡ given.summary
  pub severity_known : severity_valid f.severity ≡ true
  pub layer_known : layer_valid f.layer ≡ true
  pub not_zero : finding_is_zero f ≡ false
  pub some_ref : f.evidence_refs ≢ []
  pub refs_increase : Increasing f.evidence_refs
  pub refs_kept : (x : Bytes) → member x f.evidence_refs ≡ member x given.evidence_refs
  pub advice_kept : f.recommendations ≡ given.recommendations
  pub advice_acts : All HasAction f.recommendations
  pub confirmed_plain : (is_confirmed f.kind && not (eqb f.discriminator [])) ≡ false

pub code_nonempty : (code : Bytes) → finding_code_valid code ≡ true → eqb code [] ≡ false
unfolding finding_code_valid eqb
code_nonempty [] v = cc
code_nonempty (c ∷ cs) v = refl

-- A finding that was accepted keeps its code, its summary and its recommendations, none of which
-- is empty; it has a valid severity and layer, cites at least one id, each of those given once
-- and in increasing order, is not the zero finding, and has no discriminator if it is confirmed.
pub new_finding-Admitted : (given f : Finding) → new_finding given ≡ ok f → Admitted given f
new_finding-Admitted g f h =
    let (same, kept, increase, v) = new_finding-Valid g f h in
    record {
      code_kept = ap (λ (x : Finding). x.code) same;
      summary_kept = ap (λ (x : Finding). x.summary) same;
      severity_known = v.severity_ok;
      layer_known = v.layer_ok;
      not_zero = rw (code_nonempty f.code v.code_ok) refl;
      some_ref = v.cites;
      refs_increase = increase;
      refs_kept = kept;
      advice_kept = ap (λ (x : Finding). x.recommendations) same;
      advice_acts = v.acts;
      confirmed_plain = v.plain;
    }
