-- ===== src/Domain/Vocabulary.antt =====
-- internal/domain: the enumerations of the evidence vocabulary (state.go, severity.go,
-- confidence.go, layer.go, findingkind.go, subject.go, attribute.go, failureclass.go). Each is a
-- `uint8` in Go, with one constant for each constructor here; a `uint8` that no constant names has
-- no counterpart. `rank` is the number of the constant, where the code compares by it.
use svcdoctor.Base.{ℕ, Bool, true, false}
use svcdoctor.Base.Bytes.{Bytes, codes}

pub data State : Type 0 where
  unknown pass fail degraded skipped : State

abbrev pub is_skipped : State → Bool
is_skipped skipped = true
is_skipped _ = false

pub data Severity : Type 0 where
  unspecified info warn error critical : Severity

abbrev pub severity_rank : Severity → ℕ
severity_rank Severity.unspecified = 0
severity_rank info = 1
severity_rank warn = 2
severity_rank error = 3
severity_rank critical = 4

abbrev pub severity_valid : Severity → Bool
severity_valid Severity.unspecified = false
severity_valid _ = true

pub data Confidence : Type 0 where
  unspecified low medium high : Confidence

abbrev pub confidence_rank : Confidence → ℕ
confidence_rank Confidence.unspecified = 0
confidence_rank low = 1
confidence_rank medium = 2
confidence_rank high = 3

abbrev pub confidence_valid : Confidence → Bool
confidence_valid Confidence.unspecified = false
confidence_valid _ = true

pub data Layer : Type 0 where
  unspecified input dns tcp tls protocol auth topology : Layer

abbrev pub layer_rank : Layer → ℕ
layer_rank Layer.unspecified = 0
layer_rank input = 1
layer_rank dns = 2
layer_rank tcp = 3
layer_rank tls = 4
layer_rank protocol = 5
layer_rank auth = 6
layer_rank topology = 7

abbrev pub layer_label : Layer → Bytes
layer_label Layer.unspecified = codes "unspecified"
layer_label input = codes "input"
layer_label dns = codes "dns"
layer_label tcp = codes "tcp"
layer_label tls = codes "tls"
layer_label protocol = codes "protocol"
layer_label auth = codes "auth"
layer_label topology = codes "topology"

abbrev pub layer_valid : Layer → Bool
layer_valid Layer.unspecified = false
layer_valid _ = true

pub data FindingKind : Type 0 where
  unspecified confirmed hypothesis : FindingKind

abbrev pub finding_kind_rank : FindingKind → ℕ
finding_kind_rank FindingKind.unspecified = 0
finding_kind_rank confirmed = 1
finding_kind_rank hypothesis = 2

abbrev pub finding_kind_valid : FindingKind → Bool
finding_kind_valid FindingKind.unspecified = false
finding_kind_valid _ = true

pub data SubjectKind : Type 0 where
  unspecified target endpoint : SubjectKind

abbrev pub subject_kind_rank : SubjectKind → ℕ
subject_kind_rank SubjectKind.unspecified = 0
subject_kind_rank target = 1
subject_kind_rank endpoint = 2

abbrev pub subject_kind_valid : SubjectKind → Bool
subject_kind_valid SubjectKind.unspecified = false
subject_kind_valid _ = true

pub data FailureClass : Type 0 where
  none : FailureClass
  dns_nx_domain dns_no_address dns_timeout dns_resolver_failure : FailureClass
  tcp_connection_refused tcp_connection_timeout tcp_connection_reset : FailureClass
  tcp_network_unreachable tcp_host_unreachable tcp_connection_failed : FailureClass
  tls_handshake_failure tls_certificate_expired tls_certificate_not_yet_valid : FailureClass
  tls_unknown_authority tls_hostname_mismatch tls_version_mismatch : FailureClass
  tls_client_certificate_required tls_client_certificate_rejected tls_peer_not_tls : FailureClass
  protocol_unexpected_response protocol_unsupported_version : FailureClass
  protocol_unsupported_capability protocol_malformed_response protocol_peer_closed : FailureClass
  auth_mechanism_unsupported auth_mechanism_not_offered : FailureClass
  auth_credentials_rejected auth_peer_verification_failed : FailureClass
  authz_denied authz_scope_insufficient authz_not_permitted : FailureClass
  resource_not_found resource_limit_reached : FailureClass
  exec_local_timeout exec_cancelled exec_unsupported_by_svcdoctor : FailureClass
  exec_insufficient_privilege exec_required_input_missing exec_skipped_by_policy : FailureClass
  exec_skipped_prerequisite_failed exec_depth_limit : FailureClass

abbrev pub is_failure_none : FailureClass → Bool
is_failure_none FailureClass.none = true
is_failure_none _ = false
