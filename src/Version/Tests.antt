-- ===== src/Version/Tests.antt =====
-- Versions compared, and the inputs at which the theorems are applied.
use acemcp_relay.Prelude.{Text, [], ◌≡◌, refl, bytes, text_beq, text_eq}
use acemcp_relay.Strings.{split, push_head}
use acemcp_relay.Strings.Decimal.{lax_number, atoi}
use acemcp_relay.Version.{
  less, cut, number_at, version_of, compare, compare_versions, evaluate_version_gate_against,
}
use acemcp_relay.Version.Reading.{version_text}

versions : Unit {0}
unfolding bytes text_beq split push_head atoi lax_number cut number_at version_of compare
    compare_versions evaluate_version_gate_against
versions = tt

prerelease_below : compare_versions (bytes "1.10.3-beta") (bytes "1.10.3") ≡ less
unfolding versions
prerelease_below = refl

-- A number too large before a byte that is no digit.
saturated : lax_number (bytes "99999999999999999999x") ≡ 9223372036854775807
unfolding versions
saturated = refl

not_saturated : lax_number (bytes "9999999999999999999x") ≡ 0
unfolding versions
not_saturated = refl

abbrev nine : Text
nine = version_text 1 9 12 []

abbrev ten : Text
ten = version_text 1 10 3 (bytes "beta")

abbrev no_suffix : Text
no_suffix = []
