-- ===== src/Failure.antt =====
-- index_failure.go: the diagnostics of failed index jobs: their table, the check of a diagnostic
-- that a client reports, and the classification of an error's text where it reports none.
-- strings.ToLower is a parameter.
pub mod Rules
pub mod Laws
pub mod Tests
use acemcp_relay.Prelude.{
  Bool, true, false, not, ◌&&◌, ◌||◌, List, [], ◌∷◌, Option, none, some, text_eq, Text, bytes, ◌==◌,
  if◌then◌else◌, lookup, any,
}
use acemcp_relay.Strings.{trim_space, contains}
use acemcp_relay.Failure.Rules.{
  Rule, disconnected_rule, timeout_rule, later_rules, index_failed, timed_out,
}

pub record IndexFailureDiagnostic : Type 0 where
  pub code : Text
  pub origin : Text
  pub recovery : Text

abbrev row : Text → Text → Text → Text × IndexFailureDiagnostic
row code origin recovery = (code, record { code = code; origin = origin; recovery = recovery })

-- `indexFailureDiagnosticsByCode`
unfoldable pub diagnostics_by_code : List (Text × IndexFailureDiagnostic)
unfolding bytes
diagnostics_by_code =
    row (bytes "client_disconnected") (bytes "client") (bytes "restart_client")
    ∷ row (bytes "heartbeat_timeout") (bytes "relay") (bytes "restart_client")
    ∷ row (bytes "embedding_space_changed") (bytes "remote_index") (bytes "reset_root")
    ∷ row (bytes "upstream_bad_gateway") (bytes "remote_index")
        (bytes "retry_after_service_recovers")
    ∷ row (bytes "provider_billing") (bytes "provider") (bytes "fix_provider_billing")
    ∷ row (bytes "provider_rate_limited") (bytes "provider") (bytes "retry_later")
    ∷ row (bytes "provider_invalid_request") (bytes "provider") (bytes "contact_admin")
    ∷ row (bytes "repository_file_limit") (bytes "client") (bytes "reduce_repository")
    ∷ row (bytes "repository_file_size_limit") (bytes "client") (bytes "reduce_repository")
    ∷ row (bytes "index_quota_exceeded") (bytes "relay") (bytes "wait_for_quota_reset")
    ∷ row (bytes "provider_authentication") (bytes "provider") (bytes "fix_credentials")
    ∷ row (bytes "network_unavailable") (bytes "network") (bytes "restart_client")
    ∷ row (bytes "index_failed") (bytes "unknown") (bytes "contact_admin")
    ∷ []

-- The results of `validateReportedIndexFailureDiagnostic`: nothing was reported, a diagnostic of
-- the table, or an error.
pub data Report : Type 0 where
  nothing invalid : Report
  provided : IndexFailureDiagnostic → Report

unfoldable pub check_against : Text → Text → Option IndexFailureDiagnostic → Report
check_against origin recovery none = invalid
check_against origin recovery (some d) =
    if origin == d.origin && recovery == d.recovery then provided d else invalid

unfoldable pub validate_trimmed : Text → Text → Text → Report
validate_trimmed code origin recovery =
    if code == [] && origin == [] && recovery == []
    then nothing
    else if code == [] || origin == [] || recovery == []
    then invalid
    else check_against origin recovery (lookup code diagnostics_by_code)

-- `validateReportedIndexFailureDiagnostic`
unfoldable pub validate_reported : Text → Text → Text → Report
validate_reported code origin recovery =
    validate_trimmed (trim_space code) (trim_space origin) (trim_space recovery)

abbrev pub report_option : Report → Option IndexFailureDiagnostic
report_option nothing = none
report_option invalid = none
report_option (provided d) = some d

-- `persistedIndexFailureDiagnostic`
unfoldable pub persisted_diagnostic : Text → Text → Text → Option IndexFailureDiagnostic
persisted_diagnostic code origin recovery = report_option (validate_reported code origin recovery)

abbrev pub contains_any : Text → List Text → Bool
contains_any s words = any (contains s) words

unfoldable pub first_match : Text → List Rule → Text
first_match s [] = index_failed
first_match s ((words, code) ∷ rules) =
    let rest = first_match s rules in if contains_any s words then code else rest

unfoldable pub code_of : Text → Text → Text
code_of status s =
    if contains_any s disconnected_rule.0
    then disconnected_rule.1
    else if status == timed_out || contains_any s timeout_rule.0
    then timeout_rule.1
    else first_match s later_rules

-- What indexing a map gives.
abbrev pub or_zero : Option IndexFailureDiagnostic → IndexFailureDiagnostic
or_zero none = record { code = []; origin = []; recovery = [] }
or_zero (some d) = d

module _ (lower : Text → Text) where
  -- `classifyIndexFailure`; a code that the table lacks gives the zero value.
  unfoldable pub classify_index_failure : Text → Text → IndexFailureDiagnostic
  classify_index_failure status detail =
      or_zero (lookup (code_of status (lower (trim_space detail))) diagnostics_by_code)

  unfoldable pub resolve_report : Text → Text → Report → Option IndexFailureDiagnostic
  resolve_report status detail nothing = some (classify_index_failure status detail)
  resolve_report status detail invalid = none
  resolve_report status detail (provided d) = some d

  -- `resolveReportedIndexFailureDiagnostic`; `none` is an error.
  unfoldable pub resolve_reported : Text → Text → Text → Text → Text → Option IndexFailureDiagnostic
  resolve_reported status detail code origin recovery =
      resolve_report status detail (validate_reported code origin recovery)
