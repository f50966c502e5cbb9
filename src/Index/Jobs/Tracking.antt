-- ===== src/Index/Jobs/Tracking.antt =====
-- index_jobs.go: one job through any run of the transactions: while it runs, its manifest is the one
-- that it was created with.
use acemcp_relay.Prelude.{
  ◌≡◌, refl, sym, ap, ◌∙◌, subst, Bool, true, not, ◌&&◌, List, [], ◌∷◌, map, text_eq, Text, ◌==◌,
  arith, any, filter_by, update_where, eq_iff, Bool-cases, inl, inr, any-update_where, All-of,
  filter_by-filter_by-unseen, any_witness, any-implied,
}
use acemcp_relay.Index.Manifest.{IndexManifestFile, Snapshot}
use acemcp_relay.Index.Jobs.{IndexJob, JobFile, Db, is_open, is_file_of, update_jobs}
use acemcp_relay.Index.Jobs.Consistency.{Consistent, IsApart, apart}
use acemcp_relay.Index.Jobs.Endings.{Covers, Ends, retire, uncovered}

-- The job, running in its workspace.
abbrev pub is_run_of : Text → Text → Text → IndexJob → Bool
is_run_of user id workspace j = is_open user id j && j.workspace_id == workspace

-- The manifest of a job: its paths, with what it says of each.
abbrev pub manifest_entry : JobFile → Text × IndexManifestFile
manifest_entry r = (
  r.path,
  record {
    path = r.path;
    hash = r.hash;
    size = r.size;
    estimated_chunks = r.estimated_chunks;
    content = [];
  },
)

abbrev pub manifest_of : Text → List JobFile → Snapshot
manifest_of id rows = map manifest_entry (filter_by (is_file_of id) rows)

module _ (user id workspace : Text) where
  -- If the job runs afterwards, then it ran before, with the same manifest.
  abbrev pub Follows : Db → Db → Type 0
  Follows db db' =
      any (is_run_of user id workspace) db'.jobs ≡ true
      → (any (is_run_of user id workspace) db.jobs ≡ true)
        × (manifest_of id db'.job_files ≡ manifest_of id db.job_files)

  pub Follows-trans : (a b c : Db) → Follows a b → Follows b c → Follows a c
  Follows-trans a b c f g e = let (u, m) = g e in let (w, n) = f u in (w, m ∙ n)

  pub touch-Follows :
      (p : IndexJob → Bool) (f : IndexJob → IndexJob) (db : Db)
      → ((j : IndexJob)
          → p j ≡ true
          → is_run_of user id workspace (f j) ≡ is_run_of user id workspace j)
      → Follows db (update_jobs p f db)
  unfolding update_jobs
  touch-Follows p f db h e =
      (sym (any-update_where (is_run_of user id workspace) p f h db.jobs) ∙ e, refl)

  run_unpicked_of_update :
      (p : IndexJob → Bool) (f : IndexJob → IndexJob)
      → Ends p f
      → (jobs : List IndexJob) → any (is_run_of user id workspace) (update_where p f jobs) ≡ true
      → any (λ j. is_run_of user id workspace j && not (p j)) jobs ≡ true
  unfolding any update_where
  run_unpicked_of_update p f h [] e = e
  run_unpicked_of_update p f h (j ∷ js) e = elim (Bool-cases (p j)) [
    | inl u ↦
        let (_, stopped, _) = h j u in
        let rest : any (is_run_of user id workspace) (update_where p f js) ≡ true =
          ground (arith, e, u, stopped) in
        ground (arith, u, run_unpicked_of_update p f h js rest)
    | inr u ↦ ground (arith, e, u, run_unpicked_of_update p f h js)
  ]

  run_unpicked_of_filter :
      (p : IndexJob → Bool) (jobs : List IndexJob)
      → any (is_run_of user id workspace) (filter_by (λ j. not (p j)) jobs) ≡ true
      → any (λ j. is_run_of user id workspace j && not (p j)) jobs ≡ true
  unfolding any filter_by
  run_unpicked_of_filter p [] e = e
  run_unpicked_of_filter p (j ∷ js) e = ground (arith, run_unpicked_of_filter p js)

  module _ (p : IndexJob → Bool) (d : JobFile → Bool) (db : Db) (c : Covers p d db)
      (v : Consistent db) where
    unpicked_kept :
        any (λ j. is_run_of user id workspace j && not (p j)) db.jobs ≡ true
        → (any (is_run_of user id workspace) db.jobs ≡ true)
          × (manifest_of id (filter_by (λ r. not (d r)) db.job_files) ≡ manifest_of id db.job_files)
    unpicked_kept e =
        let (j, u, k) =
          any_witness (IsApart p db.jobs) (λ j. is_run_of user id workspace j && not (p j)) db.jobs
            e (apart p db.jobs v.distinct) in
        let same = (eq_iff j.id id).0 (ground (arith, u)) in
        (
          any-implied (λ j. is_run_of user id workspace j && not (p j))
              (is_run_of user id workspace) db.jobs (λ j x. ground (arith, x)) e,
          ap (map manifest_entry) (
              filter_by-filter_by-unseen (is_file_of id) (λ r. not (d r)) db.job_files
                (All-of (λ r. is_file_of id r ≡ true → not (d r) ≡ true)
                  (λ r x.
                    uncovered p d db c j r k (ground (arith, u))
                      (subst (λ i. (r.job_id == i) ≡ true) (sym same) x))
                  db.job_files)),
        )

    pub retire-Follows : (f : IndexJob → IndexJob) → Ends p f → Follows db (retire p f d db)
    unfolding retire
    retire-Follows f h e = unpicked_kept (run_unpicked_of_update p f h db.jobs e)

    pub delete-Follows : Follows db (record db {
      jobs = filter_by (λ j. not (p j)) db.jobs;
      job_files = filter_by (λ r. not (d r)) db.job_files;
    })
    delete-Follows e = unpicked_kept (run_unpicked_of_filter p db.jobs e)
