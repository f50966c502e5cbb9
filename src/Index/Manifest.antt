-- ===== src/Index/Manifest.antt =====
-- index_jobs.go: manifests of repository files (`normalizeManifest`, `graftUnreadablePaths`,
-- `diffManifest`, `validateIndexBatchSize`). Sizes and chunk counts are unbounded integers.
pub mod Diff
pub mod Normal
pub mod Tests
use acemcp_relay.Prelude.{
  ℕ, zero, suc, ◌+◌, ◌*◌, Bool, true, false, ◌&&◌, ◌||◌, not, List, [], ◌∷◌, ◌++◌, map, Option,
  none, some, nat_eq, text_eq, Text, ◌==◌, leb, ltb, if◌then◌else◌, length, lookup,
}
use acemcp_relay.Prelude.Int.{ℤ, pos, negsuc, is_pos, pos_part, int_eq, ◌+ℤ◌}
use acemcp_relay.Strings.{trim_space}
use acemcp_relay.Index.Path.{normalize_index_path}

pub record IndexManifestFile : Type 0 where
  pub path : Text
  pub hash : Text
  pub size : ℤ
  pub estimated_chunks : ℤ
  pub content : Text

-- A Go map from paths to files.
abbrev pub Snapshot : Type 0
Snapshot = List (Text × IndexManifestFile)

pub data ManifestError : Type 0 where
  too_many_files path_and_hash_required duplicate_path unreadable_too_long file_too_large
        batch_too_large :
      ManifestError

pub data ManifestResult {ℓ} (A : Type ℓ) : Type ℓ where
  ok : A → ManifestResult A
  err : ManifestError → ManifestResult A

abbrev pub max_index_manifest_files : ℕ
max_index_manifest_files = 100000

abbrev pub max_index_file_bytes : ℕ
max_index_file_bytes = 512 * 1024

abbrev pub max_index_batch_bytes : ℕ
max_index_batch_bytes = 512 * 1024

-- Go's `<=` on strings: the order of their bytes.
unfoldable pub text_leb : Text → Text → Bool
text_leb [] t = true
text_leb (a ∷ s) [] = false
text_leb (a ∷ s) (b ∷ t) = let rest = text_leb s t in if a == b then rest else ltb a b

-- sort.Slice by path, and sort.Strings
insert_file : IndexManifestFile → List IndexManifestFile → List IndexManifestFile
insert_file f [] = f ∷ []
insert_file f (g ∷ gs) =
    let rest = insert_file f gs in if text_leb f.path g.path then f ∷ g ∷ gs else g ∷ rest

unfoldable pub sort_files : List IndexManifestFile → List IndexManifestFile
unfolding insert_file text_leb
sort_files [] = []
sort_files (f ∷ fs) = insert_file f (sort_files fs)

insert_text : Text → List Text → List Text
insert_text s [] = s ∷ []
insert_text s (t ∷ ts) =
    let rest = insert_text s ts in if text_leb s t then s ∷ t ∷ ts else t ∷ rest

unfoldable pub sort_texts : List Text → List Text
unfolding insert_text text_leb
sort_texts [] = []
sort_texts (s ∷ ss) = insert_text s (sort_texts ss)

-- Membership in a Go map that is used as a set.
unfoldable pub has : Text → List Text → Bool
has p [] = false
has p (q ∷ qs) = q == p || has p qs

-- One round of the loop of `normalizeManifest`, behind the tests.
unfoldable pub clean_file : IndexManifestFile → IndexManifestFile
clean_file f = record {
  path = normalize_index_path f.path;
  hash = trim_space f.hash;
  size = pos (pos_part f.size);
  estimated_chunks = if is_pos f.estimated_chunks then f.estimated_chunks else pos 1;
  content = [];
}

normalize_loop :
    List Text
    → List IndexManifestFile
    → List IndexManifestFile
    → ManifestResult (List IndexManifestFile)
normalize_loop seen out [] = ok out
normalize_loop seen out (f ∷ fs) =
    let file = clean_file f in
    let rest = normalize_loop (file.path ∷ seen) (out ++ file ∷ []) fs in
    if file.path == [] || file.hash == []
    then err path_and_hash_required
    else if has file.path seen
    then err duplicate_path
    else rest

then_sort : ManifestResult (List IndexManifestFile) → ManifestResult (List IndexManifestFile)
then_sort (err e) = err e
then_sort (ok out) = ok (sort_files out)

-- `normalizeManifest`
unfoldable pub normalize_manifest : List IndexManifestFile → ManifestResult (List IndexManifestFile)
unfolding normalize_loop clean_file then_sort
normalize_manifest files =
    if ltb max_index_manifest_files (length files)
    then err too_many_files
    else then_sort (normalize_loop [] [] files)

-- The loop of `graftUnreadablePaths`: the files, with the old entries appended.
graft_loop : Snapshot → List Text → List IndexManifestFile → List Text → List IndexManifestFile
graft_loop previous current files [] = files
graft_loop previous current files (raw ∷ raws) =
    let path = normalize_index_path raw in
    let old = lookup path previous in
    let skipped = graft_loop previous current files raws in
    let missing = graft_loop previous (path ∷ current) files raws in
    let grafted =
      λ (f : IndexManifestFile). graft_loop previous (path ∷ current) (files ++ f ∷ []) raws in
    if path == [] || has path current
    then skipped
    else elim old [ none ↦ missing | some f ↦ grafted f ]

abbrev pub paths_of : List IndexManifestFile → List Text
paths_of [] = []
paths_of (f ∷ fs) = f.path ∷ paths_of fs

-- `graftUnreadablePaths`; something was grafted where the list has grown.
unfoldable pub graft_unreadable_paths :
    Snapshot → List IndexManifestFile → List Text → ManifestResult (List IndexManifestFile)
unfolding graft_loop
graft_unreadable_paths previous files unreadable =
    let out = graft_loop previous (paths_of files) files unreadable in
    if length unreadable == 0
    then ok files
    else if ltb max_index_manifest_files (length unreadable)
    then err unreadable_too_long
    else if ltb max_index_manifest_files (length out)
    then err too_many_files
    else ok (if length out == length files then out else sort_files out)

-- delete on the set of a Go map, and append to a slice.
unfoldable pub remove : Text → List Text → List Text
remove p [] = []
remove p (q ∷ qs) = let rest = remove p qs in if q == p then rest else q ∷ rest

unfoldable pub keys : Snapshot → List Text
keys [] = []
keys ((p, _) ∷ m) = p ∷ keys m

-- The test of `diffManifest`: the file is new, or its hash or size has changed.
unfoldable pub is_changed : Snapshot → IndexManifestFile → Bool
is_changed previous f = elim (lookup f.path previous) [
  | none ↦ true
  | some old ↦ not (old.hash == f.hash) || not (old.size == f.size)
]

pub record ManifestDiff : Type 0 where
  pub pending : List Text
  pub deleted : List Text
  pub estimated_chunks : ℤ

-- One round of the loop of `diffManifest`.
unfoldable pub diff_round : Snapshot → ManifestDiff → IndexManifestFile → ManifestDiff
diff_round previous d f =
    let d' = record d { deleted = remove f.path d.deleted } in
    if is_changed previous f
    then record d' {
      pending = d.pending ++ f.path ∷ [];
      estimated_chunks = d.estimated_chunks +ℤ f.estimated_chunks;
    }
    else d'

unfoldable pub diff_loop : Snapshot → ManifestDiff → List IndexManifestFile → ManifestDiff
diff_loop previous d [] = d
diff_loop previous d (f ∷ fs) = diff_loop previous (diff_round previous d f) fs

-- `diffManifest`
unfoldable pub diff_manifest : Snapshot → List IndexManifestFile → ManifestDiff
unfolding diff_loop diff_round is_changed
diff_manifest previous current =
    let d =
      diff_loop previous
        (record { pending = []; deleted = keys previous; estimated_chunks = pos 0 }) current in
    record d { deleted = sort_texts d.deleted }

-- The loop of `validateIndexBatchSize`.
unfoldable pub batch_loop : ℕ → List IndexManifestFile → ManifestResult ℕ
batch_loop total [] = if ltb max_index_batch_bytes total then err batch_too_large else ok total
batch_loop total (f ∷ fs) =
    let rest = batch_loop (total + length f.content) fs in
    if ltb max_index_file_bytes (length f.content) then err file_too_large else rest

-- `validateIndexBatchSize`
unfoldable pub validate_index_batch_size : List IndexManifestFile → ManifestResult ℕ
unfolding batch_loop
validate_index_batch_size files = batch_loop 0 files
