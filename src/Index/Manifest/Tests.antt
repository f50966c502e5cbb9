-- ===== src/Index/Manifest/Tests.antt =====
-- Runs of the manifest functions, and the inputs at which their theorems are applied.
use acemcp_relay.Prelude.{
  ◌≤◌, ◌≡◌, ◌≢◌, refl, true, not, ◌&&◌, List, [], ◌∷◌, Text, bytes, text_beq, starts_with, any,
  lookup, All, length, text_eq,
}
use acemcp_relay.Prelude.Int.{pos, ◌+ℤ◌}
use acemcp_relay.Strings.{trim_space, trim_prefix, replace_byte, split, join}
use acemcp_relay.Index.Path.{normalize_index_path}
use acemcp_relay.Index.Manifest.{
  IndexManifestFile, Snapshot, normalize_manifest, graft_unreadable_paths, diff_manifest,
  validate_index_batch_size, sort_files, sort_texts, has, remove, keys, paths_of, ok, err,
  duplicate_path, max_index_manifest_files,
}
use acemcp_relay.Index.Manifest.Diff.{
  stored, applied, find_file, is_known, diff_manifest_reconciles, diff_manifest_minimal,
  HasDistinctPaths,
}
use acemcp_relay.Index.Manifest.Normal.{IsSorted, IsClean, normalize_manifest-IsClean}

manifests : Unit {0}
unfolding bytes text_beq starts_with any lookup trim_space trim_prefix replace_byte split join
    normalize_index_path normalize_manifest graft_unreadable_paths diff_manifest
    validate_index_batch_size sort_files sort_texts has remove keys find_file ◌+ℤ◌
manifests = tt

abbrev file : Text → Text → IndexManifestFile
file path hash = record {
  path = path;
  hash = hash;
  size = pos 3;
  estimated_chunks = pos 1;
  content = [];
}

abbrev previous : Snapshot
previous =
    (bytes "a", file (bytes "a") (bytes "1")) ∷ (bytes "b", file (bytes "b") (bytes "2")) ∷ []

abbrev current : List IndexManifestFile
current = file (bytes "a") (bytes "9") ∷ file (bytes "c") (bytes "3") ∷ []

diff_run :
    ((diff_manifest previous current).pending ≡ bytes "a" ∷ bytes "c" ∷ [])
    × ((diff_manifest previous current).deleted ≡ bytes "b" ∷ [])
unfolding manifests
diff_run = (refl, refl)

diff_manifest_minimal_example :
    let d = diff_manifest previous current in
    (has (bytes "b") d.pending ≡ true
      → stored (lookup (bytes "b") previous) ≢ stored (find_file (bytes "b") current))
    × (has (bytes "b") d.deleted
        ≡ (is_known (lookup (bytes "b") previous) && not (has (bytes "b") (paths_of current))))
unfolding manifests
diff_manifest_minimal_example =
    diff_manifest_minimal previous current (bytes "b") (refl, (refl, tt))

diff_manifest_reconciles_example :
    stored (applied previous current (diff_manifest previous current) (bytes "b"))
    ≡ stored (find_file (bytes "b") current)
diff_manifest_reconciles_example = diff_manifest_reconciles previous current (bytes "b")

abbrev sent : List IndexManifestFile
sent = file (bytes "b//x") (bytes "2") ∷ file (bytes "./a") (bytes "1") ∷ []

abbrev kept : List IndexManifestFile
kept = file (bytes "a") (bytes "1") ∷ file (bytes "b/x") (bytes "2") ∷ []

normalize_manifest-IsClean_example :
    HasDistinctPaths kept
    × IsSorted kept
    × All IsClean kept
    × (length kept ≡ length sent)
    × (length kept ≤ max_index_manifest_files)
unfolding manifests
normalize_manifest-IsClean_example = normalize_manifest-IsClean sent {out = kept} refl

duplicate :
    normalize_manifest (file (bytes "a") (bytes "1") ∷ file (bytes "./a") (bytes "2") ∷ [])
    ≡ err duplicate_path
unfolding manifests
duplicate = refl

-- A file that could not be read keeps its old entry.
grafted :
    graft_unreadable_paths previous current (bytes "b" ∷ bytes "z" ∷ [])
    ≡ ok (
        file (bytes "a") (bytes "9")
        ∷ file (bytes "b") (bytes "2")
        ∷ file (bytes "c") (bytes "3")
        ∷ [])
unfolding manifests
grafted = refl

batch_total :
    validate_index_batch_size (record (file (bytes "a") (bytes "1")) { content = bytes "xyz" } ∷ [])
    ≡ ok 3
unfolding manifests
batch_total = refl
