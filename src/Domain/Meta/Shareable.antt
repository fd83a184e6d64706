-- ===== src/Domain/Meta/Shareable.antt =====
-- internal/domain/reportsecurity.go: from local security metadata to shareable ones.
use svcdoctor.Base.{Bool, false, ◌||◌, ◌≡◌, refl}
use svcdoctor.Base.Int.{is_neg}
use svcdoctor.Base.Result.{ok, err}
use svcdoctor.Domain.Meta.{
  OutputMode, local_full, no_redactions, shareable_redacted, RedactionCounts, ReportSecurity,
  mode_not_local, new_report_security, new_shareable_report_security,
}

-- No count is negative.
abbrev pub Sound : RedactionCounts → Type 0
Sound c =
    (is_neg c.hostname
      || is_neg c.ip_address
      || is_neg c.evidence_id
      || is_neg c.prose
      || is_neg c.identity)
    ≡ false

abbrev local_metadata : Bool → Bool → ReportSecurity
local_metadata tls_off forwarding = record {
  output_mode = local_full;
  tls_verification_disabled = tls_off;
  credential_forwarding_enabled = forwarding;
  redactions = no_redactions;
}

-- Metadata that `NewReportSecurity` accepted become shareable once, with the counts given and the
-- two flags kept; a shareable mode is neither accepted by `NewReportSecurity` nor made from
-- metadata that are shareable already.
pub new_shareable_report_security-once :
    (mode : OutputMode) (tls_off forwarding : Bool) (local : ReportSecurity) (c : RedactionCounts)
    → new_report_security mode tls_off forwarding ≡ ok local
    → Sound c
    → (shared : ReportSecurity) × (new_shareable_report_security local c ≡ ok shared)
      × (shared.output_mode ≡ shareable_redacted)
      × (shared.tls_verification_disabled ≡ tls_off)
      × (shared.credential_forwarding_enabled ≡ forwarding)
      × (shared.redactions ≡ c)
      × (new_report_security shareable_redacted tls_off forwarding ≡ err mode_not_local)
      × (new_shareable_report_security shared c ≡ err mode_not_local)
unfolding new_report_security new_shareable_report_security
new_shareable_report_security-once OutputMode.unspecified tls_off forwarding local c h sound = cc
new_shareable_report_security-once shareable_redacted tls_off forwarding local c h sound = cc
new_shareable_report_security-once local_full tls_off forwarding local c h sound =
    let same : local_metadata tls_off forwarding ≡ local = cc in
    (shared, rw (← same, sound) refl, refl, refl, refl, refl, refl, refl)
  where
    shared : ReportSecurity
    shared = record {
      output_mode = shareable_redacted;
      tls_verification_disabled = tls_off;
      credential_forwarding_enabled = forwarding;
      redactions = c;
    }
