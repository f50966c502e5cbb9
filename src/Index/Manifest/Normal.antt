-- ===== src/Index/Manifest/Normal.antt =====
-- index_jobs.go, `normalizeManifest`: what an accepted manifest looks like.
use acemcp_relay.Prelude.{
  suc, ◌+◌, ◌≤◌, ◌≡◌, ◌≢◌, refl, sym, ◌∙◌, inl, inr, true, false, ◌||◌, List, [], ◌∷◌, ◌++◌, nat_eq,
  text_eq, Text, ◌==◌, arith, length, length-append, eq_iff, All, All-append, Bool-cases,
}
use acemcp_relay.Prelude.Int.{is_pos, neg_part}
use acemcp_relay.Index.Manifest.{
  IndexManifestFile, has, paths_of, clean_file, normalize_loop, then_sort, normalize_manifest,
  sort_files, insert_file, text_leb, ManifestResult, ok, err, max_index_manifest_files,
}
use acemcp_relay.Index.Manifest.Diff.{HasDistinctPaths}

-- A file that `normalizeManifest` lets through.
abbrev pub IsClean : IndexManifestFile → Type 0
IsClean f =
    (f.path ≢ [])
    × (f.hash ≢ [])
    × (neg_part f.size ≡ 0)
    × (is_pos f.estimated_chunks ≡ true)
    × (f.content ≡ [])

-- In the order of their paths.
abbrev pub IsSorted : List IndexManifestFile → Type 0
IsSorted [] = Unit
IsSorted (f ∷ []) = Unit
IsSorted (f ∷ g ∷ fs) = (text_leb f.path g.path ≡ true) × IsSorted (g ∷ fs)

text_leb_total : (s t : Text) → text_leb s t ≡ false → text_leb t s ≡ true
unfolding text_leb
text_leb_total [] t h = cc
text_leb_total (a ∷ s) [] h = refl
text_leb_total (a ∷ s) (b ∷ t) h = ground (arith, text_leb_total s t)

insert_file-IsSorted :
    (f : IndexManifestFile) (gs : List IndexManifestFile)
    → IsSorted gs
    → IsSorted (insert_file f gs)
unfolding insert_file
insert_file-IsSorted f [] h = tt
insert_file-IsSorted f (g ∷ []) h = ground (arith, text_leb_total f.path g.path)
insert_file-IsSorted f (g ∷ k ∷ gs) h = ground (
  arith,
  text_leb_total f.path g.path,
  text_leb_total f.path k.path,
  insert_file-IsSorted f (k ∷ gs) h.1,
)

sort_files-IsSorted : (fs : List IndexManifestFile) → IsSorted (sort_files fs)
unfolding sort_files
sort_files-IsSorted [] = tt
sort_files-IsSorted (f ∷ fs) = insert_file-IsSorted f (sort_files fs) (sort_files-IsSorted fs)

has-insert_file :
    (p : Text) (f : IndexManifestFile) (gs : List IndexManifestFile)
    → has p (paths_of (insert_file f gs)) ≡ (f.path == p || has p (paths_of gs))
unfolding insert_file has
has-insert_file p f [] = refl
has-insert_file p f (g ∷ gs) = ground (arith, has-insert_file p f gs)

has-sort_files :
    (p : Text) (fs : List IndexManifestFile)
    → has p (paths_of (sort_files fs)) ≡ has p (paths_of fs)
unfolding sort_files has
has-sort_files p [] = refl
has-sort_files p (f ∷ fs) = ground (arith, has-insert_file p f (sort_files fs), has-sort_files p fs)

insert_file_distinct :
    (f : IndexManifestFile) (gs : List IndexManifestFile)
    → has f.path (paths_of gs) ≡ false
    → HasDistinctPaths gs
    → HasDistinctPaths (insert_file f gs)
unfolding insert_file has
insert_file_distinct f [] h d = (h, tt)
insert_file_distinct f (g ∷ gs) h d = ground (
  arith,
  eq_iff f.path g.path,
  eq_iff g.path f.path,
  has-insert_file g.path f gs,
  insert_file_distinct f gs,
)

sort_files_distinct :
    (fs : List IndexManifestFile) → HasDistinctPaths fs → HasDistinctPaths (sort_files fs)
unfolding sort_files
sort_files_distinct [] d = tt
sort_files_distinct (f ∷ fs) (h, d) =
    insert_file_distinct f (sort_files fs) (has-sort_files f.path fs ∙ h) (sort_files_distinct fs d)

insert_file-All :
    (f : IndexManifestFile) (gs : List IndexManifestFile)
    → IsClean f
    → All IsClean gs
    → All IsClean (insert_file f gs)
unfolding insert_file
insert_file-All f [] k h = (k, tt)
insert_file-All f (g ∷ gs) k (l, h) = elim (Bool-cases (text_leb f.path g.path)) [
  | inl e ↦ rw e (k, (l, h))
  | inr e ↦ rw e (l, insert_file-All f gs k h)
]

sort_files-All : (fs : List IndexManifestFile) → All IsClean fs → All IsClean (sort_files fs)
unfolding sort_files
sort_files-All [] h = tt
sort_files-All (f ∷ fs) (k, h) = insert_file-All f (sort_files fs) k (sort_files-All fs h)

length-insert_file :
    (f : IndexManifestFile) (gs : List IndexManifestFile)
    → length (insert_file f gs) ≡ suc (length gs)
unfolding insert_file
length-insert_file f [] = refl
length-insert_file f (g ∷ gs) = ground (arith, length-insert_file f gs)

length-sort_files : (fs : List IndexManifestFile) → length (sort_files fs) ≡ length fs
unfolding sort_files
length-sort_files [] = refl
length-sort_files (f ∷ fs) =
    omega (arith, length-insert_file f (sort_files fs), length-sort_files fs)

paths_of-append :
    (p : Text) (fs : List IndexManifestFile) (f : IndexManifestFile)
    → has p (paths_of (fs ++ f ∷ [])) ≡ (f.path == p || has p (paths_of fs))
unfolding has
paths_of-append p [] f = refl
paths_of-append p (g ∷ fs) f = ground (arith, paths_of-append p fs f)

append_distinct :
    (fs : List IndexManifestFile) (f : IndexManifestFile)
    → HasDistinctPaths fs
    → has f.path (paths_of fs) ≡ false
    → HasDistinctPaths (fs ++ f ∷ [])
unfolding has
append_distinct [] f d h = (refl, tt)
append_distinct (g ∷ fs) f (n, d) h = ground (
  arith,
  paths_of-append g.path fs f,
  append_distinct fs f d,
  eq_iff f.path g.path,
  eq_iff g.path f.path,
)

clean_file-IsClean :
    (f : IndexManifestFile)
    → ((clean_file f).path == []) ≡ false
    → ((clean_file f).hash == []) ≡ false
    → IsClean (clean_file f)
unfolding clean_file
clean_file-IsClean f p h =
    ground (arith, eq_iff (clean_file f).path [], eq_iff (clean_file f).hash [])

-- What the loop has established of the files that it has put out.
record Progress (seen : List Text) (out : List IndexManifestFile) : Type 0 where
  distinct : HasDistinctPaths out
  clean : All IsClean out
  seen_iff : (p : Text) → has p seen ≡ has p (paths_of out)

Progress-append :
    (seen : List Text) (out : List IndexManifestFile) (file : IndexManifestFile)
    → Progress seen out
    → IsClean file
    → has file.path seen ≡ false
    → Progress (file.path ∷ seen) (out ++ file ∷ [])
unfolding has
Progress-append seen out file v c h = record {
  distinct = append_distinct out file v.distinct (sym (v.seen_iff file.path) ∙ h);
  clean = All-append IsClean out (file ∷ []) v.clean (c, tt);
  seen_iff = λ p. ground (arith, v.seen_iff p, paths_of-append p out file);
}

loop_inversion :
    (seen : List Text) (out : List IndexManifestFile) (f : IndexManifestFile)
    (fs : List IndexManifestFile) {result : List IndexManifestFile}
    → normalize_loop seen out (f ∷ fs) ≡ ok result
    → IsClean (clean_file f)
      × (has (clean_file f).path seen ≡ false)
      × (normalize_loop ((clean_file f).path ∷ seen) (out ++ clean_file f ∷ []) fs ≡ ok result)
unfolding normalize_loop
loop_inversion seen out f fs e = ground (arith, clean_file-IsClean f)

loop-Progress :
    (seen : List Text) (out files : List IndexManifestFile) {result : List IndexManifestFile}
    → Progress seen out
    → normalize_loop seen out files ≡ ok result
    → HasDistinctPaths result × All IsClean result × (length result ≡ length out + length files)
loop-Progress seen out [] v e = unfold normalize_loop in ground (arith, v)
loop-Progress seen out (f ∷ fs) {result} v e =
    let (clean, fresh, rest) = loop_inversion seen out f fs e in
    let file : IndexManifestFile = clean_file f in
    let (d, c, n) =
      loop-Progress (file.path ∷ seen) (out ++ file ∷ []) fs {result = result}
        (Progress-append seen out file v clean fresh) rest in
    (d, c, omega (arith, n, length-append {0} out (file ∷ [])))

then_sort_inversion :
    (r : ManifestResult (List IndexManifestFile)) {out : List IndexManifestFile}
    → then_sort r ≡ ok out
    → (mid : List IndexManifestFile) × (r ≡ ok mid) × (sort_files mid ≡ out)
unfolding then_sort
then_sort_inversion (ok mid) e = (mid, refl, ground arith)
then_sort_inversion (err x) e = cc

manifest_inversion :
    (files : List IndexManifestFile) {out : List IndexManifestFile}
    → normalize_manifest files ≡ ok out
    → (then_sort (normalize_loop [] [] files) ≡ ok out) × (length files ≤ max_index_manifest_files)
unfolding normalize_manifest
manifest_inversion files e = ground arith

-- An accepted manifest names as many files as were sent and at most the limit, in the order of
-- their paths and no path twice, each with a path and a hash, a size that is not negative, at
-- least one chunk and no content.
pub normalize_manifest-IsClean :
    (files : List IndexManifestFile) {out : List IndexManifestFile}
    → normalize_manifest files ≡ ok out
    → HasDistinctPaths out
      × IsSorted out
      × All IsClean out
      × (length out ≡ length files)
      × (length out ≤ max_index_manifest_files)
normalize_manifest-IsClean files e =
    let (sorted, short) = manifest_inversion files e in
    let (mid, looped, same) = then_sort_inversion (normalize_loop [] [] files) sorted in
    let (d, c, n) =
      loop-Progress [] [] files {result = mid}
        (record { distinct = tt; clean = tt; seen_iff = λ p. refl }) looped in
    rw (← same) (
      sort_files_distinct mid d,
      sort_files-IsSorted mid,
      sort_files-All mid c,
      omega (arith, length-sort_files mid, n),
      omega (arith, length-sort_files mid, n, short),
    )
