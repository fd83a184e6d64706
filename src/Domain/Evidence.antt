-- ===== src/Domain/Evidence.antt =====
-- internal/domain/evidence.go, subject.go, attribute.go and elapsed.go: one piece of evidence.
pub mod Accepted
use svcdoctor.Base.{ℕ, Bool, true, false, not, ◌&&◌, List, [], ◌∷◌, ◌==◌}
use svcdoctor.Base.Bytes.{Bytes, eqb}
use svcdoctor.Base.Int.{ℤ, pos, is_neg}
use svcdoctor.Base.Result.{Result, ok, err, ◌>>=◌, ◌>>◌, reject}
use svcdoctor.Domain.Names.{ValueError, validate_identifier, validate_dotted_name}
use svcdoctor.Domain.Vocabulary.{
  State, Layer, layer_valid, SubjectKind, subject_kind_valid, FailureClass, is_failure_none,
}

pub record Subject : Type 0 where
  pub kind : SubjectKind
  pub ref : Bytes

abbrev pub is_unspecified : SubjectKind → Bool
is_unspecified SubjectKind.unspecified = true
is_unspecified _ = false

-- `s == Subject{}`
abbrev pub subject_is_zero : Subject → Bool
subject_is_zero s = is_unspecified s.kind && eqb s.ref []

abbrev pub zero_subject : Subject
zero_subject = record { kind = SubjectKind.unspecified; ref = [] }

-- `time.Time`: nanoseconds since its zero instant. A location is not kept, so `UTC()` is the
-- identity.
abbrev pub Time : Type 0
Time = ℕ

abbrev pub time_is_zero : Time → Bool
time_is_zero t = t == 0

-- `Elapsed`: a duration, or none when nothing was measured.
pub record Elapsed : Type 0 where
  pub duration : ℤ
  pub measured : Bool

-- The tagged union of attribute.go. `invalid` is the zero value.
pub data AttrValue : Type 0 where
  invalid : AttrValue
  string : Bytes → AttrValue
  int : ℤ → AttrValue
  bool : Bool → AttrValue
  duration : ℤ → AttrValue
  time : Time → AttrValue
  string_list : List Bytes → AttrValue
  host : Bytes → AttrValue
  host_list : List Bytes → AttrValue
  identity : Bytes → AttrValue

abbrev pub attr_valid : AttrValue → Bool
attr_valid invalid = false
attr_valid _ = true

pub record Evidence : Type 0 where
  pub id : Bytes
  pub subject : Subject
  pub layer : Layer
  pub step_name : Bytes
  pub state : State
  pub failure_class : FailureClass
  pub attributes : List (Bytes × AttrValue)
  pub started_at : Time
  pub elapsed : Elapsed

-- `Evidence{}`
abbrev pub zero_evidence : Evidence
zero_evidence = record {
  id = [];
  subject = zero_subject;
  layer = Layer.unspecified;
  step_name = [];
  state = State.unknown;
  failure_class = FailureClass.none;
  attributes = [];
  started_at = 0;
  elapsed = record { duration = pos 0; measured = false };
}

abbrev pub evidence_is_zero : Evidence → Bool
evidence_is_zero e = eqb e.id [] && subject_is_zero e.subject

-- The errors of `NewSubject` and `NewEvidence`; each wraps `ErrInvalidValue`.
pub data EvidenceError : Type 0 where
  text : ValueError → EvidenceError
  no_subject subject_invalid layer_invalid pass_with_failure fail_without_failure : EvidenceError
  no_start negative_duration no_value : EvidenceError

abbrev pub in_text : Result ValueError (Unit {0}) → Result EvidenceError (Unit {0})
in_text (ok u) = ok u
in_text (err e) = err (text e)

unfoldable pub new_subject : SubjectKind → Bytes → Result EvidenceError Subject
new_subject kind ref = do in_text (validate_identifier ref); ok (record { kind = kind; ref = ref })

abbrev is_pass : State → Bool
is_pass State.pass = true
is_pass _ = false

abbrev is_fail : State → Bool
is_fail State.fail = true
is_fail _ = false

-- The loop of `copyAttributes`; the keys are those of a map, so no key stands twice.
unfoldable pub copy_attributes :
    List (Bytes × AttrValue) → Result EvidenceError (List (Bytes × AttrValue))
copy_attributes [] = ok []
copy_attributes ((key, value) ∷ rest) = do
  in_text (validate_dotted_name key)
  reject (not (attr_valid value)) no_value
  out ← copy_attributes rest
  ok ((key, value) ∷ out)

-- `EvidenceInput` has the fields of `Evidence`. A state and a failure class are always valid here.
unfoldable pub new_evidence : Evidence → Result EvidenceError Evidence
unfolding copy_attributes
new_evidence in_ = do
  in_text (validate_identifier in_.id)
  reject (subject_is_zero in_.subject) no_subject
  reject (not (subject_kind_valid in_.subject.kind)) subject_invalid
  reject (not (layer_valid in_.layer)) layer_invalid
  in_text (validate_dotted_name in_.step_name)
  reject (is_pass in_.state && not (is_failure_none in_.failure_class)) pass_with_failure
  reject (is_fail in_.state && is_failure_none in_.failure_class) fail_without_failure
  reject (time_is_zero in_.started_at) no_start
  reject (in_.elapsed.measured && is_neg in_.elapsed.duration) negative_duration
  attributes ← copy_attributes in_.attributes
  ok (record in_ { attributes = attributes })
