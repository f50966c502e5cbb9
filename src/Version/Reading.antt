-- ===== src/Version/Reading.antt =====
-- main.go: how `compareVersions` orders versions as they are written.
use acemcp_relay.Prelude.{ℕ, List, [], ◌∷◌, ◌++◌, text_eq, nat_eq, Text}
use acemcp_relay.Strings.{join}
use acemcp_relay.Strings.Decimal.{print_nat}

abbrev pub numbers : ℕ → ℕ → ℕ → List Text
numbers a b c = print_nat a ∷ print_nat b ∷ print_nat c ∷ []

abbrev suffix_text : Text → Text
suffix_text [] = []
suffix_text (x ∷ s) = b'-' ∷ x ∷ s

-- A version as it is written: three numbers with dots between them, and a suffix after a dash.
abbrev pub version_text : ℕ → ℕ → ℕ → Text → Text
version_text a b c suffix = join b'.' (numbers a b c) ++ suffix_text suffix
