-- ===== src/Diagnosis/Merge.antt =====
-- internal/diagnosis/converge.go: `mergeGroup`, which makes one finding of a group. Its sort is not
-- stable in Go; here it is, which decides only between members that compare equal.
pub mod Reconciled
pub mod Members
pub mod Merged
use svcdoctor.Base.{
  ℕ, Bool, true, false, not, ◌&&◌, ◌||◌, List, [], ◌∷◌, ◌++◌, ltb, ◌==◌, if◌then◌else◌,
}
use Prim.Native.Nat.{compare, Ordering}
use svcdoctor.Base.Bytes.{Bytes, eqb}
use svcdoctor.Base.Sort.{then_by, compare_bytes, sort_by}
use svcdoctor.Base.Result.{Result, ok, err, ◌>>=◌, ◌>>◌, reject}
use svcdoctor.Domain.Vocabulary.{
  Severity, severity_rank, Confidence, confidence_rank, layer_rank, FindingKind, confirmed,
  finding_kind_rank,
}
use svcdoctor.Domain.Recommendation.{Recommendation, recommendation_kind_name, safety_name}
use svcdoctor.Domain.Finding.{Finding, FindingError, is_confirmed, new_finding}
use svcdoctor.Diagnosis.Groups.{Attributed}

-- Each wraps `ErrCannotConverge`. `no_member` is the panic of `group[0]` on an empty group.
pub data ConvergeError : Type 0 where
  zero_finding not_a_rule spans_layers two_claims two_discriminators no_member : ConvergeError
  refused : FindingError → ConvergeError

unfoldable pub join_refs : List Bytes → Bytes
join_refs [] = []
join_refs (ref ∷ refs) = ref ++ 0 ∷ join_refs refs

abbrev pub flag : Bool → ℕ
flag true = b'1'
flag false = b'0'

unfoldable pub join_advice : List Recommendation → Bytes
join_advice [] = []
join_advice (r ∷ rs) =
    r.action
    ++ 0
      ∷ (recommendation_kind_name r.kind
          ++ 0
            ∷ (safety_name r.safety
                ++ 0 ∷ (r.rationale ++ 0 ∷ flag r.self_collectable ∷ 0 ∷ join_advice rs)))

abbrev pub compare_flags : Bool → Bool → Ordering
compare_flags true false = Ordering.gt
compare_flags false true = Ordering.lt
compare_flags _ _ = Ordering.eq

unfoldable pub compare_by_content : Finding → Finding → Ordering
unfolding join_refs join_advice
compare_by_content a b =
    then_by (compare_bytes (join_refs a.evidence_refs) (join_refs b.evidence_refs)) (
      then_by (compare (finding_kind_rank a.kind) (finding_kind_rank b.kind)) (
        then_by (compare (severity_rank a.severity) (severity_rank b.severity)) (
          then_by (compare (confidence_rank a.confidence) (confidence_rank b.confidence)) (
            then_by (compare_bytes a.discriminator b.discriminator) (
              then_by (compare_flags a.vantage_dependent b.vantage_dependent)
                (compare_bytes (join_advice a.recommendations) (join_advice b.recommendations)))))))

-- The first loop: every member agrees with the representative.
unfoldable pub check_claims : Finding → List Attributed → Result ConvergeError (Unit {0})
check_claims rep [] = ok tt
check_claims rep (af ∷ rest) = do
  reject (not (layer_rank af.finding.layer == layer_rank rep.layer)) spans_layers
  reject (not (eqb af.finding.summary rep.summary) || not (eqb af.finding.detail rep.detail))
      two_claims
  check_claims rep rest

-- The second loop: the one discriminator of the group, from the one seen so far.
unfoldable pub common_discriminator : Bytes → List Attributed → Result ConvergeError Bytes
common_discriminator d [] = ok d
common_discriminator d (af ∷ rest) = do
  let got = af.finding.discriminator
  reject (not (eqb got []) && (not (eqb d []) && not (eqb d got))) two_discriminators
  common_discriminator (if eqb got [] then d else got) rest

-- `==` on recommendations
abbrev pub same_recommendation : Recommendation → Recommendation → Bool
same_recommendation a b =
    eqb a.action b.action
    && (eqb (recommendation_kind_name a.kind) (recommendation_kind_name b.kind)
        && (eqb (safety_name a.safety) (safety_name b.safety)
            && (eqb a.rationale b.rationale
                && (flag a.self_collectable == flag b.self_collectable))))

unfoldable pub seen_recommendation : Recommendation → List Recommendation → Bool
seen_recommendation r [] = false
seen_recommendation r (s ∷ rs) = same_recommendation s r || seen_recommendation r rs

-- The union of the recommendations; `seen` holds those of `recommendations`.
unfoldable pub add_recommendations : List Recommendation → List Recommendation → List Recommendation
unfolding seen_recommendation
add_recommendations out [] = out
add_recommendations out (r ∷ rs) =
    add_recommendations (if seen_recommendation r out then out else out ++ r ∷ []) rs

abbrev pub max_severity : Severity → Severity → Severity
max_severity a b = if ltb (severity_rank a) (severity_rank b) then b else a

abbrev pub max_confidence : Confidence → Confidence → Confidence
max_confidence a b = if ltb (confidence_rank a) (confidence_rank b) then b else a

-- One round of the last loop: `in` takes the member in.
unfoldable pub absorb : Finding → Finding → Finding
unfolding add_recommendations
absorb in_ f = record in_ {
  evidence_refs = in_.evidence_refs ++ f.evidence_refs;
  severity = max_severity in_.severity f.severity;
  confidence = max_confidence in_.confidence f.confidence;
  vantage_dependent = in_.vantage_dependent || f.vantage_dependent;
  kind = if is_confirmed f.kind then confirmed else in_.kind;
  recommendations = add_recommendations in_.recommendations f.recommendations;
}

unfoldable pub absorb_all : Finding → List Attributed → Finding
unfolding absorb
absorb_all in_ [] = in_
absorb_all in_ (af ∷ rest) = absorb_all (absorb in_ af.finding) rest

-- A proof leaves no question open.
abbrev pub settle : Finding → Finding
settle in_ = record in_ { discriminator = if is_confirmed in_.kind then [] else in_.discriminator }

abbrev pub in_merge : Result FindingError Finding → Result ConvergeError Finding
in_merge (ok f) = ok f
in_merge (err e) = err (refused e)

abbrev pub by_content : Attributed → Attributed → Ordering
by_content a b = compare_by_content a.finding b.finding

-- `FindingInput` before the last loop.
abbrev pub merge_start : Finding → Bytes → Finding
merge_start rep d = record rep { discriminator = d; evidence_refs = []; recommendations = [] }

-- A group of at least two.
unfoldable pub merge_members : Finding → List Attributed → Result ConvergeError Finding
unfolding check_claims common_discriminator absorb_all compare_by_content sort_by
merge_members rep group = do
  check_claims rep group
  d ← common_discriminator [] group
  in_merge (new_finding (settle (absorb_all (merge_start rep d) (sort_by by_content group))))

unfoldable pub merge_group : List Attributed → Result ConvergeError Finding
unfolding merge_members
merge_group [] = err no_member
merge_group (af ∷ []) = ok af.finding
merge_group (af ∷ bf ∷ rest) = merge_members af.finding (af ∷ bf ∷ rest)
