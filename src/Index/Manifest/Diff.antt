-- ===== src/Index/Manifest/Diff.antt =====
-- index_jobs.go, `diffManifest`: what the uploads and deletions of a job do to the index.
use acemcp_relay.Prelude.{
  ◌≡◌, ◌≢◌, refl, sym, ◌∙◌, inl, inr, Bool, true, false, ◌&&◌, ◌||◌, not, List, [], ◌∷◌, ◌++◌,
  Option, none, some, nat_eq, text_eq, Text, ◌==◌, if◌then◌else◌, arith, lookup, eq_iff,
  Option-cases,
}
use acemcp_relay.Prelude.Int.{ℤ, pos, int_eq}
use acemcp_relay.Index.Manifest.{
  IndexManifestFile, Snapshot, ManifestDiff, has, remove, keys, paths_of, is_changed, diff_round,
  diff_loop, diff_manifest, sort_texts, insert_text,
}

has-append : (p : Text) (xs ys : List Text) → has p (xs ++ ys) ≡ (has p xs || has p ys)
unfolding has
has-append p [] ys = refl
has-append p (x ∷ xs) ys = ground (arith, has-append p xs ys)

has-remove : (p q : Text) (xs : List Text) → has p (remove q xs) ≡ (not (q == p) && has p xs)
unfolding has remove
has-remove p q [] = ground arith
has-remove p q (x ∷ xs) = ground (arith, has-remove p q xs, eq_iff x q, eq_iff x p, eq_iff q p)

has-insert_text : (p s : Text) (xs : List Text) → has p (insert_text s xs) ≡ (s == p || has p xs)
unfolding has insert_text
has-insert_text p s [] = refl
has-insert_text p s (x ∷ xs) = ground (arith, has-insert_text p s xs)

has-sort_texts : (p : Text) (xs : List Text) → has p (sort_texts xs) ≡ has p xs
unfolding has sort_texts
has-sort_texts p [] = refl
has-sort_texts p (x ∷ xs) = ground (arith, has-insert_text p x (sort_texts xs), has-sort_texts p xs)

abbrev pub is_known : Option IndexManifestFile → Bool
is_known none = false
is_known (some _) = true

has-keys : (p : Text) (m : Snapshot) → has p (keys m) ≡ is_known (lookup p m)
unfolding has keys lookup
has-keys p [] = refl
has-keys p ((q, f) ∷ m) = ground (arith, has-keys p m)

-- Some file at the path is one that the loop sends.
unfoldable pub changed_at : Snapshot → Text → List IndexManifestFile → Bool
changed_at previous p [] = false
changed_at previous p (f ∷ fs) = f.path == p && is_changed previous f || changed_at previous p fs

diff_round_sets :
    (previous : Snapshot) (p : Text) (d : ManifestDiff) (f : IndexManifestFile)
    → let r = diff_round previous d f in
      (has p r.deleted ≡ (not (f.path == p) && has p d.deleted))
      × (has p r.pending ≡ (has p d.pending || f.path == p && is_changed previous f))
unfolding diff_round has
diff_round_sets previous p d f =
    ground (arith, has-remove p f.path d.deleted, has-append p d.pending (f.path ∷ []))

-- What the loop leaves in its two sets.
diff_loop_sets :
    (previous : Snapshot) (p : Text) (d : ManifestDiff) (fs : List IndexManifestFile)
    → let r = diff_loop previous d fs in
      (has p r.deleted ≡ (has p d.deleted && not (has p (paths_of fs))))
      × (has p r.pending ≡ (has p d.pending || changed_at previous p fs))
unfolding diff_loop changed_at has
diff_loop_sets previous p d [] = ground arith
diff_loop_sets previous p d (f ∷ fs) =
    ground (
      arith,
      diff_round_sets previous p d f,
      diff_loop_sets previous p (diff_round previous d f) fs,
    )

-- The first file at a path, and what of a file the index keeps.
unfoldable pub find_file : Text → List IndexManifestFile → Option IndexManifestFile
find_file p [] = none
find_file p (f ∷ fs) = let rest = find_file p fs in if f.path == p then some f else rest

abbrev pub stored : Option IndexManifestFile → Option (Text × ℤ)
stored none = none
stored (some f) = some (f.hash, f.size)

stored_unchanged :
    (previous : Snapshot) (f : IndexManifestFile)
    → is_changed previous f ≡ false
    → stored (lookup f.path previous) ≡ some (f.hash, f.size)
unfolding is_changed
stored_unchanged previous f h = elim (Option-cases (lookup f.path previous)) [
  | inl e ↦ ground (arith, e)
  | inr (old, e) ↦ ground (arith, e, eq_iff old.hash f.hash, eq_iff old.size f.size)
]

find_file-none :
    (p : Text) (fs : List IndexManifestFile) → has p (paths_of fs) ≡ false → find_file p fs ≡ none
unfolding find_file has
find_file-none p [] h = refl
find_file-none p (f ∷ fs) h = ground (arith, find_file-none p fs)

stored_kept :
    (previous : Snapshot) (p : Text) (fs : List IndexManifestFile)
    → changed_at previous p fs ≡ false
    → has p (paths_of fs) ≡ true
    → stored (lookup p previous) ≡ stored (find_file p fs)
unfolding find_file has changed_at
stored_kept previous p [] c h = cc
stored_kept previous p (f ∷ fs) c h =
    ground (arith, stored_kept previous p fs, eq_iff f.path p, stored_unchanged previous f)

-- The index after a job: deleted paths are gone, pending ones hold the current file.
abbrev pub applied :
    Snapshot → List IndexManifestFile → ManifestDiff → Text → Option IndexManifestFile
applied previous current d p =
    if has p d.deleted
    then none
    else if has p d.pending
    then find_file p current
    else lookup p previous

pub diff_manifest_sets :
    (previous : Snapshot) (current : List IndexManifestFile) (p : Text)
    → let d = diff_manifest previous current in
      (has p d.deleted ≡ (is_known (lookup p previous) && not (has p (paths_of current))))
      × (has p d.pending ≡ changed_at previous p current)
unfolding diff_manifest has
diff_manifest_sets previous current p =
    let start : ManifestDiff = record {
      pending = [];
      deleted = keys previous;
      estimated_chunks = pos 0;
    } in
    ground (
      arith,
      has-sort_texts p (diff_loop previous start current).deleted,
      has-keys p previous,
      diff_loop_sets previous p start current,
    )

-- Once its deletions and uploads are done, the index holds at every path what the manifest says:
-- the hash and size of the current file there, and nothing where there is none.
pub diff_manifest_reconciles :
    (previous : Snapshot) (current : List IndexManifestFile) (p : Text)
    → stored (applied previous current (diff_manifest previous current) p)
      ≡ stored (find_file p current)
diff_manifest_reconciles previous current p = ground (
  arith,
  diff_manifest_sets previous current p,
  stored_kept previous p current,
  find_file-none p current,
)

-- No path stands twice.
abbrev pub HasDistinctPaths : List IndexManifestFile → Type 0
HasDistinctPaths [] = Unit
HasDistinctPaths (f ∷ fs) = (has f.path (paths_of fs) ≡ false) × HasDistinctPaths fs

stored_changed :
    (previous : Snapshot) (f : IndexManifestFile)
    → is_changed previous f ≡ true
    → stored (lookup f.path previous) ≢ some (f.hash, f.size)
unfolding is_changed
stored_changed previous f h = elim (Option-cases (lookup f.path previous)) [
  | inl e ↦ ground (arith, e)
  | inr (old, e) ↦ ground (arith, e, eq_iff old.hash f.hash, eq_iff old.size f.size)
]

has_of_changed_at :
    (previous : Snapshot) (p : Text) (fs : List IndexManifestFile)
    → changed_at previous p fs ≡ true
    → has p (paths_of fs) ≡ true
unfolding changed_at has
has_of_changed_at previous p [] c = c
has_of_changed_at previous p (f ∷ fs) c = ground (arith, has_of_changed_at previous p fs)

changed_at-stored :
    (previous : Snapshot) (p : Text) (fs : List IndexManifestFile)
    → HasDistinctPaths fs
    → changed_at previous p fs ≡ true
    → stored (lookup p previous) ≢ stored (find_file p fs)
unfolding find_file changed_at
changed_at-stored previous p [] h c = cc
changed_at-stored previous p (f ∷ fs) (d, h) c = ground (
  arith,
  eq_iff f.path p,
  stored_changed previous f,
  has_of_changed_at previous p fs,
  changed_at-stored previous p fs h,
)

-- For a manifest with no path twice, nothing is sent in vain: a path is pending only if the index
-- holds something else there, and it is deleted exactly if the index knows it and the manifest
-- does not.
pub diff_manifest_minimal :
    (previous : Snapshot) (current : List IndexManifestFile) (p : Text)
    → HasDistinctPaths current
    → let d = diff_manifest previous current in
      (has p d.pending ≡ true → stored (lookup p previous) ≢ stored (find_file p current))
      × (has p d.deleted ≡ (is_known (lookup p previous) && not (has p (paths_of current))))
diff_manifest_minimal previous current p h =
    let (deleted, pending) = diff_manifest_sets previous current p in
    (λ sent. changed_at-stored previous p current h (sym pending ∙ sent), deleted)
