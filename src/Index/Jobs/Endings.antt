-- ===== src/Index/Jobs/Endings.antt =====
-- index_jobs.go: the statements that end jobs or delete them, with the rows of their manifests,
-- and what they keep of the tables.
use acemcp_relay.Prelude.{
  ◌≡◌, sym, ap, ◌∙◌, Bool, true, false, not, ◌&&◌, List, [], ◌∷◌, text_eq, ◌==◌, arith, filter_by,
  count_by, any, update_where, All, eq_iff, Bool-cases, inl, inr, All-filter_with, All-update_with,
  All-zip, All-of, count_by-filter_by-unseen,
}
use acemcp_relay.Index.Jobs.{IndexJob, JobFile, Db, is_running, is_done, is_file_of, is_file_of_any}
use acemcp_relay.Index.Jobs.Consistency.{
  Consistent, IsOwned, IsCounted, IsNeeded, IsPhased, IsApart, apart, runs, is_indexed_of,
  is_needed_of, distinct-update_where, distinct-filter_by,
}

-- A test on manifest rows that picks those of the jobs that another test picks.
abbrev pub Covers : (IndexJob → Bool) → (JobFile → Bool) → Db → Type 0
Covers p d db = (r : JobFile) → d r ≡ is_file_of_any p db.jobs r

module _ (p : IndexJob → Bool) (d : JobFile → Bool) (db : Db) (c : Covers p d db) where
  pub uncovered :
      (j : IndexJob) (r : JobFile)
      → IsApart p db.jobs j
      → p j ≡ false
      → is_file_of j.id r ≡ true
      → not (d r) ≡ true
  unfolding is_file_of_any
  uncovered j r k e u =
      ap not
        (c r ∙ ap (λ i. any (λ k. p k && k.id == i) db.jobs) ((eq_iff r.job_id j.id).0 u) ∙ k e)

  -- The rows of a job that is not picked are kept.
  rows_kept :
      (j : IndexJob) (q : JobFile → Bool)
      → ((r : JobFile) → q r ≡ true → is_file_of j.id r ≡ true)
      → p j ≡ false
      → IsApart p db.jobs j
      → count_by q (filter_by (λ r. not (d r)) db.job_files) ≡ count_by q db.job_files
  rows_kept j q h e k =
      count_by-filter_by-unseen q (λ r. not (d r)) db.job_files
        (All-of (λ r. q r ≡ true → not (d r) ≡ true) (λ r u. uncovered j r k e (h r u))
          db.job_files)

  filter_by-IsCounted :
      (j : IndexJob)
      → p j ≡ false
      → IsCounted db.job_files j × IsApart p db.jobs j
      → IsCounted (filter_by (λ r. not (d r)) db.job_files) j
  filter_by-IsCounted j e (k, a) u = (
    (k u).0 ∙ sym (rows_kept j (is_indexed_of j.id) (λ r h. ground (arith, h)) e a),
    (k u).1 ∙ sym (rows_kept j (is_needed_of j.id) (λ r h. ground (arith, h)) e a),
  )

  jobs-IsCounted : Consistent db → All (λ j. IsCounted db.job_files j × IsApart p db.jobs j) db.jobs
  jobs-IsCounted v =
      All-zip (IsCounted db.job_files) (IsApart p db.jobs) db.jobs v.counted
        (apart p db.jobs v.distinct)

  filter_by-IsNeeded : Consistent db → All IsNeeded (filter_by (λ r. not (d r)) db.job_files)
  filter_by-IsNeeded v =
      All-filter_with IsNeeded IsNeeded (λ r. not (d r)) (λ r e k. k) db.job_files v.needed

-- The owner of a row that no picked job owns is not picked.
module _ (p : IndexJob → Bool) (r : JobFile) where
  owner_after_filter_by :
      (jobs : List IndexJob)
      → is_file_of_any p jobs r ≡ false
      → is_file_of_any runs jobs r ≡ true
      → is_file_of_any runs (filter_by (λ j. not (p j)) jobs) r ≡ true
  unfolding is_file_of_any any filter_by
  owner_after_filter_by [] h e = e
  owner_after_filter_by (j ∷ js) h e = ground (arith, owner_after_filter_by js)

  owner_after_update_where :
      (f : IndexJob → IndexJob) (jobs : List IndexJob)
      → is_file_of_any p jobs r ≡ false
      → is_file_of_any runs jobs r ≡ true
      → is_file_of_any runs (update_where p f jobs) r ≡ true
  unfolding is_file_of_any any update_where
  owner_after_update_where f [] h e = e
  owner_after_update_where f (j ∷ js) h e = elim (Bool-cases (p j)) [
    | inl u ↦ rw u (ground (arith, u, owner_after_update_where f js))
    | inr u ↦ rw u (ground (arith, u, owner_after_update_where f js))
  ]

-- The end of jobs: they are no longer running, and their manifests are deleted.
unfoldable pub retire : (IndexJob → Bool) → (IndexJob → IndexJob) → (JobFile → Bool) → Db → Db
retire p f d db = record db {
  jobs = update_where p f db.jobs;
  job_files = filter_by (λ r. not (d r)) db.job_files;
}

abbrev pub Ends : (IndexJob → Bool) → (IndexJob → IndexJob) → Type 0
Ends p f =
    (j : IndexJob)
    → p j ≡ true
    → ((f j).id ≡ j.id) × (is_running (f j).status ≡ false) × (is_done (f j).phase ≡ true)

negated : (b : Bool) → not b ≡ true → b ≡ false
negated b h = ground arith

module _ (p : IndexJob → Bool) (d : JobFile → Bool) (db : Db) (c : Covers p d db) where
  pub retire-Consistent :
      (f : IndexJob → IndexJob) → Ends p f → Consistent db → Consistent (retire p f d db)
  unfolding retire
  retire-Consistent f t v =
      let rows : List JobFile = filter_by (λ r. not (d r)) db.job_files in
      record {
        distinct = distinct-update_where p f (λ j e. (t j e).0) db.jobs v.distinct;
        owned =
            All-filter_with (IsOwned db.jobs) (IsOwned (update_where p f db.jobs)) (λ r. not (d r))
              (λ r e k. owner_after_update_where p r f db.jobs (sym (c r) ∙ negated (d r) e) k)
              db.job_files v.owned;
        counted =
            All-update_with (λ j. IsCounted db.job_files j × IsApart p db.jobs j) (IsCounted rows) p
              f (λ j e k u. absurd (ground (arith, t j e, u)))
              (λ j e k. filter_by-IsCounted p d db c j e k) db.jobs (jobs-IsCounted p d db c v);
        needed = filter_by-IsNeeded p d db c v;
        phased =
            All-update_with IsPhased IsPhased p f (λ j e k. ground (arith, t j e)) (λ j e k. k)
              db.jobs v.phased;
      }

  pub delete-Consistent :
      Consistent db
      → Consistent (record db {
        jobs = filter_by (λ j. not (p j)) db.jobs;
        job_files = filter_by (λ r. not (d r)) db.job_files;
      })
  delete-Consistent v =
      let rows : List JobFile = filter_by (λ r. not (d r)) db.job_files in
      record {
        distinct = distinct-filter_by (λ j. not (p j)) db.jobs v.distinct;
        owned =
            All-filter_with (IsOwned db.jobs) (IsOwned (filter_by (λ j. not (p j)) db.jobs))
              (λ r. not (d r))
              (λ r e k. owner_after_filter_by p r db.jobs (sym (c r) ∙ negated (d r) e) k)
              db.job_files v.owned;
        counted =
            All-filter_with (λ j. IsCounted db.job_files j × IsApart p db.jobs j) (IsCounted rows)
              (λ j. not (p j)) (λ j e k. filter_by-IsCounted p d db c j (negated (p j) e) k) db.jobs
              (jobs-IsCounted p d db c v);
        needed = filter_by-IsNeeded p d db c v;
        phased = All-filter_with IsPhased IsPhased (λ j. not (p j)) (λ j e k. k) db.jobs v.phased;
      }
