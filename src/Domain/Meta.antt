-- ===== src/Domain/Meta.antt =====
-- internal/domain/run.go, target.go, vantage.go and reportsecurity.go: the parts of a report that
-- say which run it is of.
pub mod Shareable
use svcdoctor.Base.{Bool, true, false, not, ◌&&◌, ◌||◌, List, [], ◌∷◌, ◌==◌}
use svcdoctor.Base.Bytes.{Bytes, eqb}
use svcdoctor.Base.Int.{ℤ, pos, negsuc, is_neg}
use svcdoctor.Base.Result.{Result, ok, err, ◌>>◌, reject}
use svcdoctor.Domain.Names.{ValueError, validate_identifier, service_valid}
use svcdoctor.Domain.Evidence.{Time, time_is_zero}

-- The errors of these values; each wraps `ErrInvalidValue`.
pub data MetaError : Type 0 where
  text : ValueError → MetaError
  no_start negative_duration service_invalid : MetaError
  mode_invalid mode_not_local redaction_negative no_local_metadata : MetaError

abbrev pub in_text : Result ValueError (Unit {0}) → Result MetaError (Unit {0})
in_text (ok u) = ok u
in_text (err e) = err (text e)

pub record RunMetadata : Type 0 where
  pub svcdoctor_version : Bytes
  pub started_at : Time
  pub duration : ℤ
  pub service : Bytes

unfoldable pub new_run_metadata : Bytes → Time → ℤ → Bytes → Result MetaError RunMetadata
new_run_metadata version started_at duration service = do
  in_text (validate_identifier version)
  reject (time_is_zero started_at) no_start
  reject (is_neg duration) negative_duration
  reject (not (service_valid service)) service_invalid
  ok (record {
    svcdoctor_version = version;
    started_at = started_at;
    duration = duration;
    service = service;
  })

abbrev pub int_is_zero : ℤ → Bool
int_is_zero (pos n) = n == 0
int_is_zero (negsuc n) = false

abbrev pub run_metadata_is_zero : RunMetadata → Bool
run_metadata_is_zero r =
    eqb r.svcdoctor_version []
    && time_is_zero r.started_at
    && int_is_zero r.duration
    && eqb r.service []

pub record Target : Type 0 where
  pub requested : Bytes
  pub normalized : List Bytes

unfoldable pub validate_all : List Bytes → Result MetaError (Unit {0})
validate_all [] = ok tt
validate_all (n ∷ ns) = do in_text (validate_identifier n); validate_all ns

unfoldable pub new_target : Bytes → List Bytes → Result MetaError Target
unfolding validate_all
new_target requested normalized = do
  in_text (validate_identifier requested)
  validate_all normalized
  ok (record { requested = requested; normalized = normalized })

abbrev pub target_is_zero : Target → Bool
target_is_zero t = eqb t.requested []

pub data VantageSource : Type 0 where
  unspecified local_host : VantageSource

pub record Vantage : Type 0 where
  pub source : VantageSource
  pub host : Bytes

abbrev source_is_zero : VantageSource → Bool
source_is_zero VantageSource.unspecified = true
source_is_zero local_host = false

abbrev pub vantage_is_zero : Vantage → Bool
vantage_is_zero v = source_is_zero v.source && eqb v.host []

pub data OutputMode : Type 0 where
  unspecified local_full shareable_redacted : OutputMode

abbrev pub output_mode_valid : OutputMode → Bool
output_mode_valid OutputMode.unspecified = false
output_mode_valid _ = true

-- The counts are Go's `int`, so the sign is checked.
pub record RedactionCounts : Type 0 where
  pub hostname : ℤ
  pub ip_address : ℤ
  pub evidence_id : ℤ
  pub prose : ℤ
  pub identity : ℤ

abbrev pub no_redactions : RedactionCounts
no_redactions = record {
  hostname = pos 0;
  ip_address = pos 0;
  evidence_id = pos 0;
  prose = pos 0;
  identity = pos 0;
}

pub record ReportSecurity : Type 0 where
  pub output_mode : OutputMode
  pub tls_verification_disabled : Bool
  pub credential_forwarding_enabled : Bool
  pub redactions : RedactionCounts

abbrev mode_is_shareable : OutputMode → Bool
mode_is_shareable shareable_redacted = true
mode_is_shareable _ = false

abbrev mode_is_local : OutputMode → Bool
mode_is_local local_full = true
mode_is_local _ = false

unfoldable pub new_report_security : OutputMode → Bool → Bool → Result MetaError ReportSecurity
new_report_security mode tls_off forwarding = do
  reject (not (output_mode_valid mode)) mode_invalid
  reject (mode_is_shareable mode) mode_not_local
  ok (record {
    output_mode = mode;
    tls_verification_disabled = tls_off;
    credential_forwarding_enabled = forwarding;
    redactions = no_redactions;
  })

abbrev redactions_are_zero : RedactionCounts → Bool
redactions_are_zero c =
    int_is_zero c.hostname
    && int_is_zero c.ip_address
    && int_is_zero c.evidence_id
    && int_is_zero c.prose
    && int_is_zero c.identity

abbrev pub security_is_zero : ReportSecurity → Bool
security_is_zero s =
    not (output_mode_valid s.output_mode)
    && not s.tls_verification_disabled
    && not s.credential_forwarding_enabled
    && redactions_are_zero s.redactions

unfoldable pub new_shareable_report_security :
    ReportSecurity → RedactionCounts → Result MetaError ReportSecurity
new_shareable_report_security from c = do
  reject (security_is_zero from) no_local_metadata
  reject (not (mode_is_local from.output_mode)) mode_not_local
  reject
      (is_neg c.hostname
        || is_neg c.ip_address
        || is_neg c.evidence_id
        || is_neg c.prose
        || is_neg c.identity)
      redaction_negative
  ok (record {
    output_mode = shareable_redacted;
    tls_verification_disabled = from.tls_verification_disabled;
    credential_forwarding_enabled = from.credential_forwarding_enabled;
    redactions = c;
  })
