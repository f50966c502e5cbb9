-- ===== src/Index/Path/Tests.antt =====
-- Runs of the path functions, and the inputs at which their theorems are applied.
use acemcp_relay.Prelude.{
  ◌≡◌, refl, ◌⊎◌, Bool, [], ◌∷◌, Text, bytes, text_beq, text_eq, All, starts_with, any,
}
use acemcp_relay.Strings.{trim_space, trim_prefix, replace_byte, split, join, ends_with}
use acemcp_relay.Index.Path.{
  normalize_index_path, CloudIndexPathPolicy, is_cloud_index_path_excluded,
  validate_index_source_path, path_ok, path_err, escapes, not_relative, excluded, path_base,
  path_ext, has_drive_prefix,
}
use acemcp_relay.Index.Path.Laws.{IsSafe, normalize_index_path-IsSafe}

strings : Unit {0}
unfolding bytes text_beq starts_with any trim_space trim_prefix replace_byte split join ends_with
    normalize_index_path
strings = tt

mixed : normalize_index_path (bytes " a\\b/../c//./d ") ≡ bytes "a/c/d"
unfolding strings
mixed = refl

above_root : normalize_index_path (bytes "../../x") ≡ bytes "x"
unfolding strings
above_root = refl

-- A blank after a dropped element survives the first call and not the second.
blank_once : normalize_index_path (bytes "./ b") ≡ bytes " b"
unfolding strings
blank_once = refl

blank_twice : normalize_index_path (bytes " b") ≡ bytes "b"
unfolding strings
blank_twice = refl

normalize_index_path-IsSafe_example :
    (normalize_index_path (bytes "../a") ≡ [])
    ⊎ All IsSafe (split b'/' (normalize_index_path (bytes "../a")))
normalize_index_path-IsSafe_example = normalize_index_path-IsSafe (bytes "../a")

-- A part of contracts/cloud-index-path-policy.json.
abbrev policy : CloudIndexPathPolicy
policy = record {
  excluded_segments = bytes ".git" ∷ bytes "node_modules" ∷ [];
  excluded_basenames = bytes ".env" ∷ [];
  excluded_basename_prefixes = bytes ".env." ∷ [];
  excluded_basename_suffixes = bytes ".min.js" ∷ [];
  excluded_extensions = bytes ".o" ∷ bytes ".png" ∷ [];
}

abbrev is_excluded : Text → Bool
is_excluded = is_cloud_index_path_excluded (λ s. s) policy

validations :
    (validate_index_source_path is_excluded (bytes "src/main.go") ≡ path_ok (bytes "src/main.go"))
    × (validate_index_source_path is_excluded (bytes "a/../b") ≡ path_err escapes)
    × (validate_index_source_path is_excluded (bytes "C:\\b") ≡ path_err not_relative)
    × (validate_index_source_path is_excluded (bytes "x/node_modules/y.js") ≡ path_err excluded)
    × (validate_index_source_path is_excluded (bytes "x/icon.png") ≡ path_err excluded)
unfolding strings validate_index_source_path is_cloud_index_path_excluded path_base path_ext
    has_drive_prefix
validations = (refl, refl, refl, refl, refl)
