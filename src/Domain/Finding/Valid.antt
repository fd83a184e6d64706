-- ===== src/Domain/Finding/Valid.antt =====
-- What `NewFinding` of internal/domain/finding.go asks of its input, and what it makes of it.
use svcdoctor.Base.{
  Bool, true, false, not, ◌&&◌, List, [], ◌∷◌, ◌++◌, All, ◌≡◌, ◌≢◌, refl, sym, ap, ◌∙◌, inl, inr,
  arith, Bool-cases, if◌then◌else◌,
}
use svcdoctor.Base.Bytes.{Bytes, eqb, member, sort, eqb_iff, eqb_refl}
use svcdoctor.Base.Result.{ok, >>=-eq-ok, >>-eq-ok, reject-eq-ok}
use svcdoctor.Domain.Names.{validate_identifier}
use svcdoctor.Domain.Vocabulary.{
  severity_valid, confidence_valid, layer_valid, finding_kind_valid, subject_kind_valid,
}
use svcdoctor.Domain.Evidence.{subject_is_zero}
use svcdoctor.Domain.Recommendation.{Recommendation, recommendation_is_zero}
use svcdoctor.Domain.Finding.Refs.{Increasing, normalize_evidence_refs_lem}
use svcdoctor.Domain.Finding.{
  Finding, code_invalid, kind_invalid, severity_invalid, confidence_invalid, layer_invalid,
  subject_invalid, discriminator_on_confirmed, no_action, in_text, finding_code_valid,
  validate_prose, is_confirmed, unless, collect_refs, normalize_evidence_refs, copy_recommendations,
  new_finding,
}

abbrev pub HasAction : Recommendation → Type 0
HasAction r = recommendation_is_zero r ≡ false

pub record Valid (f : Finding) : Type 0 where
  pub code_ok : finding_code_valid f.code ≡ true
  pub kind_ok : finding_kind_valid f.kind ≡ true
  pub severity_ok : severity_valid f.severity ≡ true
  pub confidence_ok : confidence_valid f.confidence ≡ true
  pub layer_ok : layer_valid f.layer ≡ true
  pub subject_ok :
      (not (subject_is_zero f.subject) && not (subject_kind_valid f.subject.kind)) ≡ false
  pub summary_ok : in_text (validate_identifier f.summary) ≡ ok tt
  pub detail_ok : unless (eqb f.detail []) (in_text (validate_prose f.detail)) ≡ ok tt
  pub discriminator_ok :
      unless (eqb f.discriminator []) (in_text (validate_identifier f.discriminator)) ≡ ok tt
  pub plain : (is_confirmed f.kind && not (eqb f.discriminator [])) ≡ false
  pub cites : f.evidence_refs ≢ []
  pub refs_ok :
      (x : Bytes) → member x f.evidence_refs ≡ true → in_text (validate_identifier x) ≡ ok tt
  pub acts : All HasAction f.recommendations

collect_refs-valid :
    (ids seen out found : List Bytes)
    → collect_refs seen out ids ≡ ok found
    → (x : Bytes) → member x ids ≡ true
    → in_text (validate_identifier x) ≡ ok tt
unfolding collect_refs
collect_refs-valid [] seen out found h x m = absurd (unfold member in cc)
collect_refs-valid (id ∷ ids) seen out found h x m =
    let (good, h) = >>-eq-ok (in_text (validate_identifier id)) _ h in
    elim (Bool-cases (eqb id x)) [
      | inl e ↦ rw (← (eqb_iff id x).0 e) good
      | inr ne ↦ collect_refs-valid ids _ _ found h x (unfold member in ground arith)
    ]

collect_refs_total :
    (ids seen out : List Bytes)
    → ((x : Bytes) → member x ids ≡ true → in_text (validate_identifier x) ≡ ok tt)
    → (found : List Bytes) × (collect_refs seen out ids ≡ ok found)
unfolding collect_refs
collect_refs_total [] seen out h = (out, refl)
collect_refs_total (id ∷ ids) seen out h =
    rw (h id (unfold member in ground (arith, eqb_refl id))) (
      collect_refs_total ids (if member id seen then seen else id ∷ seen)
        (if member id seen then out else out ++ id ∷ [])
        (λ x m. h x (unfold member in ground (arith, m))))

copy_recommendations-ok :
    (rs out : List Recommendation)
    → copy_recommendations rs ≡ ok out
    → (out ≡ rs) × All HasAction rs
unfolding copy_recommendations
copy_recommendations-ok [] out h = ground arith
copy_recommendations-ok (r ∷ rs) out h =
    let (acts, h) = reject-eq-ok (recommendation_is_zero r) no_action _ h in
    let (copied, e, h) = >>=-eq-ok (copy_recommendations rs) _ h in
    let (same, rest) = copy_recommendations-ok rs copied e in (cc, (acts, rest))

copy_recommendations_total :
    (rs : List Recommendation) → All HasAction rs → copy_recommendations rs ≡ ok rs
unfolding copy_recommendations
copy_recommendations_total [] h = refl
copy_recommendations_total (r ∷ rs) h = rw (h.0, copy_recommendations_total rs h.1) refl

normalize_evidence_refs_total :
    (ids : List Bytes)
    → ids ≢ []
    → ((x : Bytes) → member x ids ≡ true → in_text (validate_identifier x) ≡ ok tt)
    → (out : List Bytes) × (normalize_evidence_refs ids ≡ ok out)
unfolding normalize_evidence_refs
normalize_evidence_refs_total [] some_ref h = absurd (some_ref refl)
normalize_evidence_refs_total (id ∷ ids) some_ref h =
    let (found, e) = collect_refs_total (id ∷ ids) [] [] h in (sort found, rw e refl)

normalize_evidence_refs-valid :
    (ids out : List Bytes)
    → normalize_evidence_refs ids ≡ ok out
    → (x : Bytes) → member x ids ≡ true
    → in_text (validate_identifier x) ≡ ok tt
unfolding normalize_evidence_refs
normalize_evidence_refs-valid [] out h = absurd (cc)
normalize_evidence_refs-valid (id ∷ ids) out h =
    let (found, collected, h) = >>=-eq-ok (collect_refs [] [] (id ∷ ids)) _ h in
    collect_refs-valid (id ∷ ids) [] [] found collected

-- A valid input is accepted.
pub Valid-new_finding : (g : Finding) → Valid g → (f : Finding) × (new_finding g ≡ ok f)
unfolding new_finding
Valid-new_finding g v =
    let (refs, e) = normalize_evidence_refs_total g.evidence_refs v.cites v.refs_ok in
    (
      record g { evidence_refs = refs; recommendations = g.recommendations },
      rw
          (
            v.code_ok,
            v.kind_ok,
            v.severity_ok,
            v.confidence_ok,
            v.layer_ok,
            v.subject_ok,
            v.summary_ok,
            v.detail_ok,
            v.discriminator_ok,
            v.plain,
            e,
            copy_recommendations_total g.recommendations v.acts,
          )
          refl,
    )

-- What is accepted is the input, its references apart, and is valid.
pub new_finding-Valid :
    (g f : Finding)
    → new_finding g ≡ ok f
    → (f ≡ record g { evidence_refs = f.evidence_refs })
      × ((x : Bytes) → member x f.evidence_refs ≡ member x g.evidence_refs)
      × Increasing f.evidence_refs
      × Valid f
unfolding new_finding
new_finding-Valid g f h =
    let (code, h) = reject-eq-ok (not (finding_code_valid g.code)) code_invalid _ h in
    let (kind, h) = reject-eq-ok (not (finding_kind_valid g.kind)) kind_invalid _ h in
    let (severity, h) = reject-eq-ok (not (severity_valid g.severity)) severity_invalid _ h in
    let (confidence, h) =
      reject-eq-ok (not (confidence_valid g.confidence)) confidence_invalid _ h in
    let (layer, h) = reject-eq-ok (not (layer_valid g.layer)) layer_invalid _ h in
    let (subject, h) =
      reject-eq-ok (not (subject_is_zero g.subject) && not (subject_kind_valid g.subject.kind))
        subject_invalid _ h in
    let (summary, h) = >>-eq-ok (in_text (validate_identifier g.summary)) _ h in
    let (detail, h) = >>-eq-ok (unless (eqb g.detail []) (in_text (validate_prose g.detail))) _ h in
    let (discriminator, h) =
      >>-eq-ok (unless (eqb g.discriminator []) (in_text (validate_identifier g.discriminator))) _
        h in
    let (plain, h) =
      reject-eq-ok (is_confirmed g.kind && not (eqb g.discriminator [])) discriminator_on_confirmed
        _ h in
    let (refs, normal, h) = >>=-eq-ok (normalize_evidence_refs g.evidence_refs) _ h in
    let (advice, copied, h) = >>=-eq-ok (copy_recommendations g.recommendations) _ h in
    let (some, increase, kept) = normalize_evidence_refs_lem g.evidence_refs refs normal in
    let (same, acts) = copy_recommendations-ok g.recommendations advice copied in
    let checked = normalize_evidence_refs-valid g.evidence_refs refs normal in
    let made : record g { evidence_refs = refs; recommendations = advice } ≡ f = cc in
    rw (← made) (
      ap (λ rs. record g { evidence_refs = refs; recommendations = rs }) same,
      kept,
      increase,
      record {
        code_ok = positive (finding_code_valid g.code) code;
        kind_ok = positive (finding_kind_valid g.kind) kind;
        severity_ok = positive (severity_valid g.severity) severity;
        confidence_ok = positive (confidence_valid g.confidence) confidence;
        layer_ok = positive (layer_valid g.layer) layer;
        subject_ok = subject;
        summary_ok = summary;
        detail_ok = detail;
        discriminator_ok = discriminator;
        plain = plain;
        cites = some;
        refs_ok = λ x m. checked x (sym (kept x) ∙ m);
        acts = rw same acts;
      },
    )
  where
    positive : (b : Bool) → not b ≡ false → b ≡ true
    positive b n = ground arith
