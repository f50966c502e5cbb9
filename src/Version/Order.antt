-- ===== src/Version/Order.antt =====
-- main.go: `compareVersions` is an order.
use acemcp_relay.Prelude.{◌≡◌, false, [], text_eq, ◌==◌, Text, arith}
use acemcp_relay.Version.{
  Comparison, less, same, greater, Version, version_of, compare, compare_versions, is_less, pass,
  reject_426, evaluate_version_gate_against,
}

abbrev pub flip : Comparison → Comparison
flip less = greater
flip same = same
flip greater = less

compare_sym : (a b : Version) → compare b a ≡ flip (compare a b)
unfolding compare
compare_sym a b = ground arith

compare_trans :
    (a b c : Version)
    → is_less (compare b a) ≡ false
    → is_less (compare c b) ≡ false
    → is_less (compare c a) ≡ false
unfolding compare
compare_trans a b c h k = ground arith

-- The comparison of versions is a total preorder on all texts: a version is the same as itself, the
-- two directions agree, and a version that is not below another is not below what that one is not
-- below.
pub compare_versions_ordered :
    (a b c : Text)
    → (compare_versions a a ≡ same)
      × (compare_versions b a ≡ flip (compare_versions a b))
      × (is_less (compare_versions b a) ≡ false
          → is_less (compare_versions c b) ≡ false
          → is_less (compare_versions c a) ≡ false)
unfolding compare_versions
compare_versions_ordered a b c = (
  same_itself (version_of a),
  compare_sym (version_of a) (version_of b),
  compare_trans (version_of a) (version_of b) (version_of c),
)
  where
    same_itself : (v : Version) → compare v v ≡ same
    same_itself v = unfold compare in (ground arith)

-- Of two minimum versions, the smaller of them set: a client that a gate lets pass is let pass by
-- the gate of any smaller minimum, one that it rejects is rejected by the gate of any larger one,
-- and a client of exactly the minimum passes.
pub evaluate_version_gate_against_monotone :
    (client low high : Text)
    → is_less (compare_versions high low) ≡ false
    → (low == []) ≡ false
    → (evaluate_version_gate_against client high ≡ pass
        → evaluate_version_gate_against client low ≡ pass)
      × (evaluate_version_gate_against client low ≡ reject_426
          → (high == []) ≡ false
          → evaluate_version_gate_against client high ≡ reject_426)
      × (evaluate_version_gate_against low low ≡ pass)
unfolding evaluate_version_gate_against
evaluate_version_gate_against_monotone client low high h named = ground (
  arith,
  h,
  named,
  (compare_versions_ordered low high client).2,
  (compare_versions_ordered low low low).0,
)
