-- ===== src/Domain/Evidence/Accepted.antt =====
-- What holds of the evidence that `NewEvidence` of internal/domain/evidence.go accepts.
use svcdoctor.Base.{true, false, not, ◌&&◌, List, [], ◌∷◌, All, ◌≡◌, ◌≢◌, refl, sym, ap, ◌∙◌, arith}
use svcdoctor.Base.Bytes.{Bytes}
use svcdoctor.Base.Int.{is_neg}
use svcdoctor.Base.Result.{ok, >>=-eq-ok, >>-eq-ok, reject-eq-ok}
use svcdoctor.Domain.Names.{validate_identifier, validate_dotted_name}
use svcdoctor.Domain.Vocabulary.{
  State, layer_valid, subject_kind_valid, FailureClass, is_failure_none,
}
use svcdoctor.Domain.Evidence.{
  AttrValue, attr_valid, Evidence, evidence_is_zero, time_is_zero, in_text, is_pass, is_fail,
  subject_is_zero, no_subject, subject_invalid, layer_invalid, pass_with_failure,
  fail_without_failure, no_start, negative_duration, no_value, copy_attributes, new_evidence,
}

-- A state and a failure class that do not contradict each other.
abbrev pub Agrees : State → FailureClass → Type 0
Agrees State.pass c = c ≡ FailureClass.none
Agrees State.fail c = c ≢ FailureClass.none
Agrees _ c = Unit

abbrev pub HasValue : Bytes × AttrValue → Type 0
HasValue entry = attr_valid entry.1 ≡ true

pub record Recorded (e : Evidence) : Type 0 where
  pub not_zero : evidence_is_zero e ≡ false
  pub agrees : Agrees e.state e.failure_class
  pub layer_known : layer_valid e.layer ≡ true
  pub started : time_is_zero e.started_at ≡ false
  pub not_negative : (e.elapsed.measured && is_neg e.elapsed.duration) ≡ false
  pub values : All HasValue e.attributes

copy_attributes-ok :
    (xs out : List (Bytes × AttrValue)) → copy_attributes xs ≡ ok out → (out ≡ xs) × All HasValue xs
unfolding copy_attributes
copy_attributes-ok [] out h = ground arith
copy_attributes-ok ((key, value) ∷ rest) out h =
    let (named, h) = >>-eq-ok (in_text (validate_dotted_name key)) _ h in
    let (valued, h) = reject-eq-ok (not (attr_valid value)) no_value _ h in
    let (copied, e, h) = >>=-eq-ok (copy_attributes rest) _ h in
    let (same, values) = copy_attributes-ok rest copied e in (cc, (ground arith, values))

Agrees-of :
    (s : State) (c : FailureClass)
    → (is_pass s && not (is_failure_none c)) ≡ false
    → (is_fail s && is_failure_none c) ≡ false
    → Agrees s c
Agrees-of State.pass FailureClass.none p f = refl
Agrees-of State.pass c p f = ground arith
Agrees-of State.fail c p f = λ e. ground (arith, ap is_failure_none e)
Agrees-of State.unknown c p f = tt
Agrees-of State.degraded c p f = tt
Agrees-of State.skipped c p f = tt

-- Evidence is accepted as it was given, and only if it is not the zero evidence, carries no failure
-- class when it passed and one when it failed, has a layer and a start, no negative duration, and
-- a value for each attribute.
pub new_evidence-Recorded : (e out : Evidence) → new_evidence e ≡ ok out → (out ≡ e) × Recorded e
unfolding new_evidence
new_evidence-Recorded e out h =
    let (id, h) = >>-eq-ok (in_text (validate_identifier e.id)) _ h in
    let (subject, h) = reject-eq-ok (subject_is_zero e.subject) no_subject _ h in
    let (kind, h) = reject-eq-ok (not (subject_kind_valid e.subject.kind)) subject_invalid _ h in
    let (layer, h) = reject-eq-ok (not (layer_valid e.layer)) layer_invalid _ h in
    let (step, h) = >>-eq-ok (in_text (validate_dotted_name e.step_name)) _ h in
    let (pass, h) =
      reject-eq-ok (is_pass e.state && not (is_failure_none e.failure_class)) pass_with_failure _
        h in
    let (fail, h) =
      reject-eq-ok (is_fail e.state && is_failure_none e.failure_class) fail_without_failure _ h in
    let (start, h) = reject-eq-ok (time_is_zero e.started_at) no_start _ h in
    let (duration, h) =
      reject-eq-ok (e.elapsed.measured && is_neg e.elapsed.duration) negative_duration _ h in
    let (copied, c, h) = >>=-eq-ok (copy_attributes e.attributes) _ h in
    let (same, values) = copy_attributes-ok e.attributes copied c in
    let made : record e { attributes = copied } ≡ out = cc in
    (
      sym made ∙ ap (λ (a : List (Bytes × AttrValue)). record e { attributes = a }) same,
      record {
        not_zero = rw subject (ground arith);
        agrees = Agrees-of e.state e.failure_class pass fail;
        layer_known = ground (arith, layer);
        started = start;
        not_negative = duration;
        values = values;
      },
    )
