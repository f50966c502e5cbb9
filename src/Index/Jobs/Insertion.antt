-- ===== src/Index/Jobs/Insertion.antt =====
-- index_jobs.go: what the transaction that inserts a job and its manifest keeps of the tables, and
-- what `createIndexJob` does around it.
use acemcp_relay.Prelude.{
  ◌+◌, ◌≡◌, refl, sym, ◌∙◌, Bool, true, false, ◌&&◌, List, [], ◌∷◌, ◌++◌, map, text_eq, nat_eq,
  Text, ◌==◌, if◌then◌else◌, arith, any, All, eq_iff, eq_self, Bool-cases, inl, inr, length,
  count_by, count_by-append, All-append, All-map, All-zip, any-All, count_by_nowhere, any-implied,
  length-append,
}
use acemcp_relay.Prelude.Int.{pos}
use acemcp_relay.Index.Manifest.{
  IndexManifestFile, Snapshot, ManifestDiff, has, is_changed, diff_round, diff_loop, diff_manifest,
  keys,
}
use acemcp_relay.Index.Manifest.Diff.{changed_at, diff_manifest_sets}
use acemcp_relay.Index.Jobs.{IndexJob, JobFile, Db, is_running, is_file_of, is_file_of_any}
use acemcp_relay.Index.Jobs.Start.{has_duplicate, file_row}
use acemcp_relay.Index.Jobs.Consistency.{
  Consistent, IsOwned, IsCounted, IsNeeded, IsPhased, runs, is_indexed_of, is_needed_of,
}

length-diff_round :
    (previous : Snapshot) (d : ManifestDiff) (f : IndexManifestFile)
    → length (diff_round previous d f).pending
      ≡ length d.pending + (if is_changed previous f then 1 else 0)
unfolding diff_round
length-diff_round previous d f = ground (arith, length-append d.pending (f.path ∷ []))

length-diff_loop :
    (previous : Snapshot) (d : ManifestDiff) (fs : List IndexManifestFile)
    → length (diff_loop previous d fs).pending
      ≡ length d.pending + count_by (is_changed previous) fs
unfolding diff_loop count_by
length-diff_loop previous d [] = omega arith
length-diff_loop previous d (f ∷ fs) =
    ground (
      arith,
      length-diff_round previous d f,
      length-diff_loop previous (diff_round previous d f) fs,
    )

-- How many paths a diff lists for upload.
pub length-diff_manifest :
    (previous : Snapshot) (fs : List IndexManifestFile)
    → length (diff_manifest previous fs).pending ≡ count_by (is_changed previous) fs
unfolding diff_manifest
length-diff_manifest previous fs =
    let start : ManifestDiff = record {
      pending = [];
      deleted = keys previous;
      estimated_chunks = pos 0;
    } in
    omega (arith, length-diff_loop previous start fs)

changed_at_absent :
    (previous : Snapshot) (p : Text) (fs : List IndexManifestFile)
    → any (λ g. g.path == p) fs ≡ false
    → changed_at previous p fs ≡ false
unfolding changed_at any
changed_at_absent previous p [] h = refl
changed_at_absent previous p (f ∷ fs) h = ground (arith, changed_at_absent previous p fs)

-- Without duplicates, a path is changed where its file is.
changed_at_own :
    (previous : Snapshot) (fs : List IndexManifestFile)
    → has_duplicate fs ≡ false
    → All (λ f. changed_at previous f.path fs ≡ is_changed previous f) fs
unfolding changed_at has_duplicate
changed_at_own previous [] h = tt
changed_at_own previous (f ∷ fs) h =
    let fresh : any (λ g. g.path == f.path) fs ≡ false = ground (arith, h) in
    (
      ground (arith, eq_self f.path, changed_at_absent previous f.path fs fresh),
      All-map
          (λ g.
            ((g.path == f.path) ≡ false) × (changed_at previous g.path fs ≡ is_changed previous g))
          (λ g. changed_at previous g.path (f ∷ fs) ≡ is_changed previous g)
          (λ g (n, e). ground (arith, n, e, eq_iff f.path g.path, eq_iff g.path f.path)) fs
          (All-zip (λ g. (g.path == f.path) ≡ false)
            (λ g. changed_at previous g.path fs ≡ is_changed previous g) fs
            (any-All (λ g. g.path == f.path) fs fresh)
            (changed_at_own previous fs (ground (arith, h)))),
    )

-- The rows of a new manifest that are to be uploaded.
needed-file_row :
    (id : Text) (pending : List Text) (q : IndexManifestFile → Bool) (fs : List IndexManifestFile)
    → All (λ f. has f.path pending ≡ q f) fs
    → count_by (is_needed_of id) (map (file_row id pending) fs) ≡ count_by q fs
unfolding count_by
needed-file_row id pending q [] h = refl
needed-file_row id pending q (f ∷ fs) (k, h) =
    ground (arith, k, eq_self id, needed-file_row id pending q fs h)

pub needed_of_diff :
    (id : Text) (previous : Snapshot) (fs : List IndexManifestFile)
    → has_duplicate fs ≡ false
    → let pending = (diff_manifest previous fs).pending in
      count_by (is_needed_of id) (map (file_row id pending) fs) ≡ length pending
needed_of_diff id previous fs h =
    let pending : List Text = (diff_manifest previous fs).pending in
    needed-file_row id pending (is_changed previous) fs (
      All-map (λ f. changed_at previous f.path fs ≡ is_changed previous f)
        (λ f. has f.path pending ≡ is_changed previous f)
        (λ f e. (diff_manifest_sets previous fs f.path).1 ∙ e) fs (changed_at_own previous fs h))
    ∙ sym (length-diff_manifest previous fs)

module _ (id : Text) (pending : List Text) where
  pub file_row-All :
      (P : JobFile → Type 0)
      → ((f : IndexManifestFile) → P (file_row id pending f))
      → (fs : List IndexManifestFile) → All P (map (file_row id pending) fs)
  file_row-All P h [] = tt
  file_row-All P h (f ∷ fs) = (h f, file_row-All P h fs)

  file_row-unseen :
      (q : JobFile → Bool)
      → ((f : IndexManifestFile) → q (file_row id pending f) ≡ false)
      → (fs : List IndexManifestFile) → count_by q (map (file_row id pending) fs) ≡ 0
  file_row-unseen q h fs =
      count_by_nowhere q (map (file_row id pending) fs) (file_row-All (λ r. q r ≡ false) h fs)

-- No manifest row has an identifier that no job has.
pub unowned :
    (id : Text) (db : Db)
    → Consistent db
    → any (λ j. j.id == id) db.jobs ≡ false
    → All (λ r. is_file_of id r ≡ false) db.job_files
unowned id db v e =
    All-map (IsOwned db.jobs) (λ r. is_file_of id r ≡ false)
      (λ r k. elim (Bool-cases (is_file_of id r)) [
        | inl u ↦
            let found : any (λ j. j.id == id) db.jobs ≡ true =
              unfold is_file_of_any in
              any-implied (λ j. runs j && j.id == r.job_id) (λ j. j.id == id) db.jobs
                (λ j x.
                  ground (arith, x, u, eq_iff j.id r.job_id, eq_iff r.job_id id, eq_iff j.id id))
                k in
            absurd (ground (arith, found, e))
        | inr u ↦ u
      ])
      db.job_files v.owned

module _ (job : IndexJob) (files : List IndexManifestFile) (pending : List Text) (db : Db)
    (v : Consistent db) (fresh : any (λ j. j.id == job.id) db.jobs ≡ false) where
  -- A count over the rows of the new job's identifier, and of another's.
  count_new :
      (q : JobFile → Bool)
      → ((r : JobFile) → q r ≡ true → is_file_of job.id r ≡ true)
      → count_by q (db.job_files ++ map (file_row job.id pending) files)
        ≡ count_by q (map (file_row job.id pending) files)
  count_new q h = ground (
    arith,
    count_by-append q db.job_files (map (file_row job.id pending) files),
    count_by_nowhere q db.job_files (
        All-map (λ r. is_file_of job.id r ≡ false) (λ r. q r ≡ false)
          (λ r k. ground (arith, k, h r)) db.job_files (unowned job.id db v fresh)),
  )

  count_old :
      (q : JobFile → Bool)
      → ((f : IndexManifestFile) → q (file_row job.id pending f) ≡ false)
      → count_by q (db.job_files ++ map (file_row job.id pending) files) ≡ count_by q db.job_files
  count_old q h = omega (
    arith,
    count_by-append q db.job_files (map (file_row job.id pending) files),
    file_row-unseen job.id pending q h files,
  )

  inserted_others-IsCounted :
      (j : IndexJob)
      → (j.id == job.id) ≡ false
      → IsCounted db.job_files j
      → IsCounted (db.job_files ++ map (file_row job.id pending) files) j
  inserted_others-IsCounted j e k u = (
    (k u).0 ∙ sym (count_old (is_indexed_of j.id) (λ f. ground arith)),
    (k u).1
        ∙ sym (
            count_old (is_needed_of j.id)
              (λ f. ground (arith, e, eq_iff j.id job.id, eq_iff job.id j.id))),
  )

  pub inserted-Consistent :
      is_running job.status ≡ true
      → IsPhased job
      → job.indexed_files ≡ 0
      → job.total_files ≡ count_by (is_needed_of job.id) (map (file_row job.id pending) files)
      → Consistent (record db {
        jobs = job ∷ db.jobs;
        job_files = db.job_files ++ map (file_row job.id pending) files;
      })
  unfolding is_file_of_any any
  inserted-Consistent run phase zero_indexed total = record {
    distinct = (fresh, v.distinct);
    owned =
        All-append (IsOwned (job ∷ db.jobs)) db.job_files (map (file_row job.id pending) files)
          (All-map (IsOwned db.jobs) (IsOwned (job ∷ db.jobs)) (λ r k. ground (arith, k))
            db.job_files v.owned)
          (file_row-All job.id pending (IsOwned (job ∷ db.jobs))
            (λ f. ground (arith, run, eq_self job.id)) files);
    counted = (
      λ u. (
        zero_indexed
            ∙ sym (
                count_new (is_indexed_of job.id) (λ r h. ground (arith, h))
                ∙ file_row-unseen job.id pending (is_indexed_of job.id) (λ f. ground arith) files),
        total ∙ sym (count_new (is_needed_of job.id) (λ r h. ground (arith, h))),
      ),
      All-map (λ j. ((j.id == job.id) ≡ false) × IsCounted db.job_files j)
          (IsCounted (db.job_files ++ map (file_row job.id pending) files))
          (λ j (e, k). inserted_others-IsCounted j e k) db.jobs
          (All-zip (λ j. (j.id == job.id) ≡ false) (IsCounted db.job_files) db.jobs
            (any-All (λ j. j.id == job.id) db.jobs fresh) v.counted),
    );
    needed =
        All-append IsNeeded db.job_files (map (file_row job.id pending) files) v.needed
          (file_row-All job.id pending IsNeeded (λ f u. absurd cc) files);
    phased = (phase, v.phased);
  }
