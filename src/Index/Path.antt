-- ===== src/Index/Path.antt =====
-- index_jobs.go (`normalizeIndexPath`), index_path_policy.go (`isCloudIndexPathExcluded`) and
-- mcp_index_tool.go (`validateIndexSourcePath`): the repository paths of an index.
pub mod Laws
pub mod Tests
use mathlib.Core.List.{reverse, tail}
use acemcp_relay.Prelude.{
  ℕ, suc, ◌+◌, Bool, true, false, ◌&&◌, ◌||◌, not, List, [], ◌∷◌, ◌++◌, Option, none, some, nat_eq,
  text_eq, Text, bytes, starts_with, ◌==◌, leb, ltb, if◌then◌else◌, length, any,
}
use acemcp_relay.Strings.{trim_space, trim_prefix, replace_byte, split, join, ends_with}

-- One element of a rooted path under path.Clean; the stack has its last element at the head.
unfoldable pub resolve : List Text → Text → List Text
resolve stack part =
    if part == [] || part == b'.' ∷ []
    then stack
    else if part == b'.' ∷ b'.' ∷ []
    then tail stack
    else part ∷ stack

unfoldable pub resolve_all : List Text → List Text → List Text
resolve_all stack [] = reverse stack
resolve_all stack (part ∷ parts) = resolve_all (resolve stack part) parts

-- path.Clean("/" + s)
unfoldable pub clean_rooted : Text → Text
unfolding resolve_all resolve
clean_rooted s = b'/' ∷ join b'/' (resolve_all [] (split b'/' s))

-- `normalizeIndexPath`
unfoldable pub normalize_index_path : Text → Text
unfolding clean_rooted
normalize_index_path value =
    let cleaned = clean_rooted (trim_space (replace_byte 0x5c b'/' value)) in
    let v = trim_prefix b'/' cleaned in if v == b'.' ∷ [] then [] else v

-- `cloudIndexPathPolicy`, the fields that the test reads.
pub record CloudIndexPathPolicy : Type 0 where
  pub excluded_segments : List Text
  pub excluded_basenames : List Text
  pub excluded_basename_prefixes : List Text
  pub excluded_basename_suffixes : List Text
  pub excluded_extensions : List Text

-- What follows the last occurrence of a byte; the whole string where there is none.
after_last : ℕ → Text → Text → Text
after_last c found [] = found
after_last c found (a ∷ s) = after_last c (if a == c then s else found) s

drop_slashes : Text → Text
drop_slashes [] = []
drop_slashes (a ∷ s) = let rest = drop_slashes s in if a == b'/' then rest else a ∷ s

-- path.Base
unfoldable pub path_base : Text → Text
unfolding after_last drop_slashes
path_base s =
    let t = reverse (drop_slashes (reverse s)) in
    if s == [] then b'.' ∷ [] else if t == [] then b'/' ∷ [] else after_last b'/' t t

-- path.Ext of a name with no slash: from its last dot on.
from_last : ℕ → Text → Text → Text
from_last c found [] = found
from_last c found (a ∷ s) = from_last c (if a == c then a ∷ s else found) s

unfoldable pub path_ext : Text → Text
unfolding from_last
path_ext s = from_last b'.' [] s

-- `strings.ToLower` goes by Unicode tables and is a parameter.
module _ (lower : Text → Text) (policy : CloudIndexPathPolicy) where
  open policy use {
    excluded_segments, excluded_basenames, excluded_basename_prefixes, excluded_basename_suffixes,
    excluded_extensions,
  }

  -- `isCloudIndexPathExcluded`
  unfoldable pub is_cloud_index_path_excluded : Text → Bool
  is_cloud_index_path_excluded normalized =
      let trimmed =
        if ends_with normalized (b'/' ∷ [])
        then reverse (tail (reverse normalized))
        else normalized in
      let low = lower trimmed in
      let base = path_base low in
      any (λ segment. any (λ excluded. segment == excluded) excluded_segments) (split b'/' low)
      || any (λ excluded. base == excluded) excluded_basenames
      || any (λ prefix. starts_with base prefix) excluded_basename_prefixes
      || any (λ suffix. ends_with base suffix) excluded_basename_suffixes
      || any (λ extension. path_ext base == extension) excluded_extensions

-- The messages of `validateIndexSourcePath`.
pub data PathError : Type 0 where
  too_long not_relative escapes required excluded : PathError

pub data PathResult : Type 0 where
  path_ok : Text → PathResult
  path_err : PathError → PathResult

abbrev pub max_index_path_bytes : ℕ
max_index_path_bytes = 4096

abbrev is_letter : ℕ → Bool
is_letter a = leb b'A' a && leb a b'Z' || leb b'a' a && leb a b'z'

-- `windowsDrivePrefix`
unfoldable pub has_drive_prefix : Text → Bool
has_drive_prefix [] = false
has_drive_prefix (a ∷ []) = false
has_drive_prefix (a ∷ b ∷ s) = is_letter a && b == b':'

-- `validateIndexSourcePath`, the exclusion test being a parameter.
unfoldable pub validate_index_source_path : (Text → Bool) → Text → PathResult
validate_index_source_path is_excluded value =
    let raw = trim_space (replace_byte 0x5c b'/' value) in
    let normalized = normalize_index_path raw in
    if ltb max_index_path_bytes (length raw)
    then path_err too_long
    else if raw == [] || starts_with raw (b'/' ∷ []) || has_drive_prefix raw
    then path_err not_relative
    else if any (λ segment. segment == b'.' ∷ b'.' ∷ []) (split b'/' raw)
    then path_err escapes
    else if normalized == []
    then path_err required
    else if is_excluded normalized
    then path_err excluded
    else path_ok normalized
