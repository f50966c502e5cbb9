-- ===== src/Failure/Tests.antt =====
-- Errors classified, and the inputs at which the theorems are applied.
use acemcp_relay.Prelude.{◌≡◌, refl, some, [], bytes, text_beq, Text, lookup, any, starts_with}
use acemcp_relay.Strings.{trim_space, contains}
use acemcp_relay.Failure.Rules.{
  disconnected_rule, timeout_rule, later_rules, index_failed, timed_out,
}
use acemcp_relay.Failure.{
  IndexFailureDiagnostic, diagnostics_by_code, check_against, validate_trimmed, validate_reported,
  persisted_diagnostic, first_match, code_of, classify_index_failure, resolve_report,
  resolve_reported,
}
use acemcp_relay.Failure.Laws.{resolve_reported_persistent}

failures : Unit {0}
unfolding bytes text_beq lookup any starts_with trim_space contains disconnected_rule timeout_rule
    later_rules index_failed timed_out diagnostics_by_code check_against validate_trimmed
    validate_reported persisted_diagnostic first_match code_of classify_index_failure resolve_report
    resolve_reported
failures = tt

abbrev plain : Text → Text
plain s = s

abbrev saturated : IndexFailureDiagnostic
saturated = record {
  code = bytes "upstream_bad_gateway";
  origin = bytes "remote_index";
  recovery = bytes "retry_after_service_recovers";
}

-- A saturated service is not a fault of the network.
saturation :
    classify_index_failure plain (bytes "failed") (bytes "timeout exceeded when trying to connect")
    ≡ saturated
unfolding failures
saturation = refl

resolve_reported_persistent_example :
    persisted_diagnostic saturated.code saturated.origin saturated.recovery ≡ some saturated
resolve_reported_persistent_example =
    resolve_reported_persistent plain (bytes "failed") (bytes "bad gateway") [] [] [] saturated
      resolved
  where
    resolved :
        resolve_reported plain (bytes "failed") (bytes "bad gateway") [] [] [] ≡ some saturated
    resolved = unfold failures in refl
