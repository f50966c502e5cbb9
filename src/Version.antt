-- ===== src/Version.antt =====
-- main.go, metrics.go and mcp_index_tool.go: the order of client versions (`compareVersions`) and
-- the two gates of the minimum version.
pub mod Order
pub mod Reading
pub mod Tests
use acemcp_relay.Prelude.{
  ℕ, zero, suc, ◌-◌, ◌+◌, min, Bool, true, false, not, ◌&&◌, ◌||◌, List, [], ◌∷◌, Option, none,
  some, text_eq, nat_eq, Text, ◌==◌, ltb, leb, if◌then◌else◌,
}
use acemcp_relay.Strings.{split, push_head, trim_space}
use acemcp_relay.Strings.Decimal.{lax_number}

-- The results -1, 0 and 1.
pub data Comparison : Type 0 where
  less same greater : Comparison

-- `strings.Cut(s, "-")` without its flag.
unfoldable pub cut : ℕ → Text → Text × Text
cut c [] = ([], [])
cut c (a ∷ s) = let (core, rest) = cut c s in if a == c then ([], s) else (a ∷ core, rest)

-- The part at an index, where there is one. `SplitN` with four parts gives the first three that
-- `Split` gives.
unfoldable pub number_at : ℕ → List Text → ℕ
number_at n [] = 0
number_at zero (p ∷ ps) = lax_number p
number_at (suc n) (p ∷ ps) = number_at n ps

abbrev pub compare_numbers : ℕ → ℕ → Comparison → Comparison
compare_numbers a b otherwise = if ltb a b then less else if ltb b a then greater else otherwise

-- A version as it is compared: three numbers, and whether it has a suffix.
pub record Version : Type 0 where
  pub major : ℕ
  pub minor : ℕ
  pub patch : ℕ
  pub prerelease : Bool

unfoldable pub version_of : Text → Version
version_of s =
    let (core, suffix) = cut b'-' s in
    let parts = split b'.' core in
    record {
      major = number_at 0 parts;
      minor = number_at 1 parts;
      patch = number_at 2 parts;
      prerelease = not (suffix == []);
    }

abbrev pub compare_suffixes : Bool → Bool → Comparison
compare_suffixes a b = if not a && b then greater else if a && not b then less else same

unfoldable pub compare : Version → Version → Comparison
compare a b = compare_numbers a.major b.major (
    compare_numbers a.minor b.minor
      (compare_numbers a.patch b.patch (compare_suffixes a.prerelease b.prerelease)))

-- `compareVersions`
unfoldable pub compare_versions : Text → Text → Comparison
compare_versions a b = compare (version_of a) (version_of b)

abbrev pub is_less : Comparison → Bool
is_less less = true
is_less same = false
is_less greater = false

-- The results "", "pass" and "reject_426".
pub data Gate : Type 0 where
  open_gate pass reject_426 : Gate

-- `evaluateVersionGateAgainst`
unfoldable pub evaluate_version_gate_against : Text → Text → Gate
evaluate_version_gate_against client minimum =
    if minimum == [] || client == []
    then open_gate
    else if is_less (compare_versions client minimum)
    then reject_426
    else pass

-- `checkIndexClientVersion`: whether it returns no error.
unfoldable pub check_index_client_version : Text → Text → Bool
check_index_client_version minimum client =
    if minimum == []
    then true
    else if trim_space client == []
    then false
    else not (is_less (compare_versions (trim_space client) minimum))
