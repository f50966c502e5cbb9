-- ===== src/Index/Jobs/Commits.antt =====
-- index_jobs.go: what `commitIndexBatch` does to a manifest and to the counters of its job.
use acemcp_relay.Prelude.{
  ℕ, ◌+◌, ◌≡◌, refl, sym, ap, ◌∙◌, Bool, true, false, ◌&&◌, List, [], ◌∷◌, Option, none, some,
  text_eq, nat_eq, Text, ◌==◌, arith, any, update_where, All, eq_iff, Bool-cases, inl, inr, length,
  count_by, count_by-update_where, count_by-update_where-sum, All-update_where, All-update_with,
  any-update_where, All-map, All-zip, subst, any-implied,
}
use acemcp_relay.Prelude.Int.{ℤ}
use acemcp_relay.Index.Manifest.{IndexManifestFile}
use acemcp_relay.Index.Jobs.{
  IndexJob, JobFile, Db, is_running, is_open, is_file_of, is_file_of_any, update_jobs,
}
use acemcp_relay.Index.Jobs.Upload.{
  commit_index_batch, commit_rows, commit_files, is_pending_at, progress,
}
use acemcp_relay.Index.Jobs.Consistency.{
  Consistent, IsOwned, IsCounted, IsNeeded, IsPhased, IsApart, apart, runs, is_indexed_of,
  is_needed_of, distinct-update_where,
}

abbrev pub mark_indexed : JobFile → JobFile
mark_indexed r = record r { indexed = true }

abbrev pub mark_at : Text → Text → List JobFile → List JobFile
mark_at id path rows = update_where (is_pending_at id path) mark_indexed rows

pub commit_files_inversion :
    (id : Text) (f : IndexManifestFile) (fs : List IndexManifestFile) (rows rows' : List JobFile)
    → commit_files id (f ∷ fs) rows ≡ some rows'
    → (count_by (is_pending_at id f.path) rows ≡ 1)
      × (commit_files id fs (mark_at id f.path rows) ≡ some rows')
unfolding commit_files
commit_files_inversion id f fs rows rows' e = ground arith

module _ {κ} (id : Text) (P : JobFile → Type κ)
    (h : (r : JobFile) → r.needs_index ≡ true → P r → P (mark_indexed r)) where
  -- What a row keeps when it is marked, all rows keep.
  pub commit_files-All :
      (fs : List IndexManifestFile) (rows rows' : List JobFile)
      → commit_files id fs rows ≡ some rows'
      → All P rows
      → All P rows'
  commit_files-All [] rows rows' e v = unfold commit_files in subst (All P) (ground (arith, e)) v
  commit_files-All (f ∷ fs) rows rows' e v =
      let (_, t) = commit_files_inversion id f fs rows rows' e in
      commit_files-All fs (mark_at id f.path rows) rows' t (
        All-update_where (is_pending_at id f.path) mark_indexed (λ r u k. h r (ground (arith, u)) k)
          rows v)

module _ (id : Text) (q : JobFile → Bool) where
  -- A test that does not see the mark counts as before.
  pub count_by-commit_files :
      ((r : JobFile) → is_file_of id r ≡ true → q (mark_indexed r) ≡ q r)
      → (fs : List IndexManifestFile) (rows rows' : List JobFile)
      → commit_files id fs rows ≡ some rows'
      → count_by q rows' ≡ count_by q rows
  count_by-commit_files h [] rows rows' e =
      unfold commit_files in ap (count_by q) (ground (arith, e))
  count_by-commit_files h (f ∷ fs) rows rows' e =
      let (_, t) = commit_files_inversion id f fs rows rows' e in
      count_by-commit_files h fs (mark_at id f.path rows) rows' t
      ∙ count_by-update_where q (is_pending_at id f.path) mark_indexed
          (λ r u. h r (ground (arith, u))) rows

-- Every file of a batch marks one more row of its job.
pub indexed-commit_files :
    (id : Text) (fs : List IndexManifestFile) (rows rows' : List JobFile)
    → commit_files id fs rows ≡ some rows'
    → count_by (is_indexed_of id) rows' ≡ count_by (is_indexed_of id) rows + length fs
indexed-commit_files id [] rows rows' e =
    unfold commit_files in let same : rows ≡ rows' = ground (arith, e) in rw (← same) (omega arith)
indexed-commit_files id (f ∷ fs) rows rows' e =
    let (n, t) = commit_files_inversion id f fs rows rows' e in
    omega (
      arith,
      n,
      indexed-commit_files id fs (mark_at id f.path rows) rows' t,
      count_by-update_where-sum (is_indexed_of id) (is_pending_at id f.path) mark_indexed
          (λ r u. ground (arith, u)) rows,
    )

module _ (user id : Text) (db : Db) (v : Consistent db)
    (e : any (is_open user id) db.jobs ≡ true) where
  -- The job of an identifier that an open job has is that open job.
  open_by_id :
      (j : IndexJob)
      → IsApart (is_open user id) db.jobs j
      → (j.id == id) ≡ true
      → is_running j.status ≡ true
  open_by_id j k u = elim (Bool-cases (is_open user id j)) [
    | inl w ↦ ground (arith, w)
    | inr w ↦
        let here : any (λ k. is_open user id k && k.id == j.id) db.jobs ≡ true =
          any-implied (is_open user id) (λ k. is_open user id k && k.id == j.id) db.jobs
            (λ k x. ground (arith, x, eq_iff j.id id, eq_iff k.id id, eq_iff k.id j.id)) e in
        absurd (ground (arith, here, k w))
  ]

  module _ (now : ℕ) (fs : List IndexManifestFile) (chunks : ℤ) (fallback sent : Bool)
      (rows' : List JobFile) (c : commit_files id fs db.job_files ≡ some rows') where
    commit_files-IsCounted :
        (j : IndexJob)
        → (j.id == id) ≡ true
        → IsCounted db.job_files j
        → IsCounted rows' (progress now (length fs) chunks fallback sent j)
    commit_files-IsCounted j u k w =
        let same = (eq_iff j.id id).0 u in
        rw same (
          ap (λ n. n + length fs)
                (subst (λ i. j.indexed_files ≡ count_by (is_indexed_of i) db.job_files) same
                  (k w).0)
              ∙ sym (indexed-commit_files id fs db.job_files rows' c),
          subst (λ i. j.total_files ≡ count_by (is_needed_of i) db.job_files) same (k w).1
              ∙ sym (
                  count_by-commit_files id (is_needed_of id) (λ r x. refl) fs db.job_files rows' c),
        )

    commit_files_others-IsCounted :
        (j : IndexJob) → (j.id == id) ≡ false → IsCounted db.job_files j → IsCounted rows' j
    commit_files_others-IsCounted j u k w = (
      (k w).0
          ∙ sym (
              count_by-commit_files id (is_indexed_of j.id)
                (λ r x.
                  ground (arith, u, x, eq_iff r.job_id id, eq_iff r.job_id j.id, eq_iff j.id id))
                fs db.job_files rows' c),
      (k w).1
          ∙ sym
              (count_by-commit_files id (is_needed_of j.id) (λ r x. refl) fs db.job_files rows' c),
    )

    committed-Consistent : Consistent (record db {
      jobs = update_where (λ j. j.id == id) (progress now (length fs) chunks fallback sent) db.jobs;
      job_files = rows';
    })
    unfolding is_file_of_any
    committed-Consistent =
        let p = λ (j : IndexJob). j.id == id in
        let f = progress now (length fs) chunks fallback sent in
        record {
          distinct = distinct-update_where p f (λ j u. refl) db.jobs v.distinct;
          owned =
              All-map (IsOwned db.jobs) (IsOwned (update_where p f db.jobs))
                (λ r k.
                  any-update_where (λ j. runs j && j.id == r.job_id) p f (λ j u. refl) db.jobs ∙ k)
                rows'
                (commit_files-All id (IsOwned db.jobs) (λ r x k. k) fs db.job_files rows' c
                  v.owned);
          counted =
              All-update_with (IsCounted db.job_files) (IsCounted rows') p f
                (λ j u k. commit_files-IsCounted j u k)
                (λ j u k. commit_files_others-IsCounted j u k) db.jobs v.counted;
          needed = commit_files-All id IsNeeded (λ r x k y. x) fs db.job_files rows' c v.needed;
          phased =
              All-update_with (λ j. IsPhased j × IsApart (is_open user id) db.jobs j) IsPhased p f
                (λ j u (k, a). ground (arith, open_by_id j a u)) (λ j u (k, a). k) db.jobs
                (All-zip IsPhased (IsApart (is_open user id) db.jobs) db.jobs v.phased
                  (apart (is_open user id) db.jobs v.distinct));
        }

commit_rows-Consistent :
    (now : ℕ) (user id : Text) (fs : List IndexManifestFile) (chunks : ℤ) (fallback sent : Bool)
    (o : Option (List JobFile)) (db : Db)
    → commit_files id fs db.job_files ≡ o
    → any (is_open user id) db.jobs ≡ true
    → Consistent db
    → Consistent (commit_rows now id (length fs) chunks fallback sent o db).0
unfolding commit_rows update_jobs
commit_rows-Consistent now user id fs chunks fallback sent none db c e v = v
commit_rows-Consistent now user id fs chunks fallback sent (some rows') db c e v =
    committed-Consistent user id db v e now fs chunks fallback sent rows' c

pub commit_index_batch-Consistent :
    (now : ℕ) (user id : Text) (fs : List IndexManifestFile) (chunks : ℤ) (fallback sent : Bool)
    (db : Db)
    → Consistent db
    → Consistent (commit_index_batch now user id fs chunks fallback sent db).0
unfolding commit_index_batch
commit_index_batch-Consistent now user id fs chunks fallback sent db v =
    elim (Bool-cases (any (is_open user id) db.jobs)) [
      | inl e ↦ rw e (
          commit_rows-Consistent now user id fs chunks fallback sent
            (commit_files id fs db.job_files) db refl e v)
      | inr e ↦ rw e v
    ]
