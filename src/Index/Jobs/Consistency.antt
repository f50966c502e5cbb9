-- ===== src/Index/Jobs/Consistency.antt =====
-- index_jobs.go: what holds of the tables of index jobs together, and the kinds of statement that
-- keep it: an update of running jobs, the end of jobs, and their deletion.
use acemcp_relay.Prelude.{
  ◌≡◌, subst, ap, ◌∙◌, Bool, true, false, not, ◌&&◌, List, [], ◌∷◌, text_eq, Text, ◌==◌, arith,
  filter_by, count_by, any, update_where, All, eq_iff, Bool-cases, inl, inr, All-map,
  All-update_with, All-zip, any-update_where, any-filter_by, any-All, any_of_All,
}
use acemcp_relay.Index.Jobs.{
  IndexJob, JobFile, Db, is_running, is_done, is_file_of, is_file_of_any, update_jobs,
}

-- No identifier stands twice.
abbrev pub HasDistinctIds : List IndexJob → Type 0
HasDistinctIds [] = Unit
HasDistinctIds (j ∷ js) = (any (λ k. k.id == j.id) js ≡ false) × HasDistinctIds js

abbrev pub runs : IndexJob → Bool
runs j = is_running j.status

-- A row of the manifest of a running job.
abbrev pub IsOwned : List IndexJob → JobFile → Type 0
IsOwned jobs r = is_file_of_any runs jobs r ≡ true

abbrev pub is_indexed_of : Text → JobFile → Bool
is_indexed_of id r = is_file_of id r && r.indexed

abbrev pub is_needed_of : Text → JobFile → Bool
is_needed_of id r = is_file_of id r && r.needs_index

-- The two counters of a running job are the numbers of rows that they stand for.
abbrev pub IsCounted : List JobFile → IndexJob → Type 0
IsCounted rows j =
    is_running j.status ≡ true
    → (j.indexed_files ≡ count_by (is_indexed_of j.id) rows)
      × (j.total_files ≡ count_by (is_needed_of j.id) rows)

abbrev pub IsNeeded : JobFile → Type 0
IsNeeded r = r.indexed ≡ true → r.needs_index ≡ true

abbrev pub IsPhased : IndexJob → Type 0
IsPhased j = is_done j.phase ≡ not (is_running j.status)

pub record Consistent (db : Db) : Type 0 where
  pub distinct : HasDistinctIds db.jobs
  pub owned : All (IsOwned db.jobs) db.job_files
  pub counted : All (IsCounted db.job_files) db.jobs
  pub needed : All IsNeeded db.job_files
  pub phased : All IsPhased db.jobs

module _ (p : IndexJob → Bool) (f : IndexJob → IndexJob)
    (same_id : (j : IndexJob) → p j ≡ true → (f j).id ≡ j.id) where
  any_id-update_where :
      (id : Text) (jobs : List IndexJob)
      → any (λ k. k.id == id) (update_where p f jobs) ≡ any (λ k. k.id == id) jobs
  any_id-update_where id jobs =
      any-update_where (λ k. k.id == id) p f (λ j e. ap (λ i. i == id) (same_id j e)) jobs

  pub distinct-update_where :
      (jobs : List IndexJob) → HasDistinctIds jobs → HasDistinctIds (update_where p f jobs)
  unfolding update_where
  distinct-update_where [] h = tt
  distinct-update_where (j ∷ js) (n, h) = elim (Bool-cases (p j)) [
    | inl e ↦ rw e (rw (same_id j e) (any_id-update_where j.id js ∙ n), distinct-update_where js h)
    | inr e ↦ rw e (any_id-update_where j.id js ∙ n, distinct-update_where js h)
  ]

pub distinct-filter_by :
    (p : IndexJob → Bool) (jobs : List IndexJob)
    → HasDistinctIds jobs
    → HasDistinctIds (filter_by p jobs)
unfolding filter_by
distinct-filter_by p [] h = tt
distinct-filter_by p (j ∷ js) (n, h) = elim (Bool-cases (p j)) [
  | inl e ↦ rw e (any-filter_by (λ k. k.id == j.id) p js n, distinct-filter_by p js h)
  | inr e ↦ rw e (distinct-filter_by p js h)
]

-- A job that a test does not pick shares its identifier with none that the test picks.
abbrev pub IsApart : (IndexJob → Bool) → List IndexJob → IndexJob → Type 0
IsApart p jobs j = p j ≡ false → any (λ k. p k && k.id == j.id) jobs ≡ false

pub apart :
    (p : IndexJob → Bool) (jobs : List IndexJob) → HasDistinctIds jobs → All (IsApart p jobs) jobs
unfolding any
apart p [] h = tt
apart p (j ∷ js) (n, h) =
    let others = any-All (λ k. k.id == j.id) js n in
    let none_here =
      any_of_All (λ k. p k && k.id == j.id) js
        (All-map (λ k. (k.id == j.id) ≡ false) (λ k. (p k && k.id == j.id) ≡ false)
          (λ k e. ground (arith, e)) js others) in
    (
      λ e. ground (arith, e, none_here),
      All-map (λ k. ((k.id == j.id) ≡ false) × IsApart p js k) (IsApart p (j ∷ js))
          (λ k (e, i) u. ground (arith, e, i u, eq_iff j.id k.id, eq_iff k.id j.id)) js
          (All-zip (λ k. (k.id == j.id) ≡ false) (IsApart p js) js others (apart p js h)),
    )

-- An update that leaves a job running, or not, and its counters as they are.
abbrev pub Touches : (IndexJob → Bool) → (IndexJob → IndexJob) → Type 0
Touches p f =
    (j : IndexJob)
    → p j ≡ true
    → ((f j).id ≡ j.id)
      × ((f j).status ≡ j.status)
      × ((f j).total_files ≡ j.total_files)
      × ((f j).indexed_files ≡ j.indexed_files)
      × (IsPhased j → IsPhased (f j))

pub touch-Consistent :
    (p : IndexJob → Bool) (f : IndexJob → IndexJob) (db : Db)
    → Touches p f
    → Consistent db
    → Consistent (update_jobs p f db)
unfolding update_jobs is_file_of_any
touch-Consistent p f db t v = record {
  distinct = distinct-update_where p f (λ j e. (t j e).0) db.jobs v.distinct;
  owned =
      All-map (IsOwned db.jobs) (IsOwned (update_where p f db.jobs))
        (λ r k.
          any-update_where (λ j. runs j && j.id == r.job_id) p f (λ j e. ground (arith, t j e))
            db.jobs
          ∙ k)
        db.job_files v.owned;
  counted =
      All-update_with (IsCounted db.job_files) (IsCounted db.job_files) p f
        (λ j e k u. let (i, s, n, m, _) = t j e in rw i (rw n (rw m (k (rw (← s) u))))) (λ j e k. k)
        db.jobs v.counted;
  needed = v.needed;
  phased =
      All-update_with IsPhased IsPhased p f (λ j e k. (t j e).4 k) (λ j e k. k) db.jobs v.phased;
}

-- The other two tables are free.
pub Consistent-jobs :
    (db db' : Db)
    → db.jobs ≡ db'.jobs
    → db.job_files ≡ db'.job_files
    → Consistent db
    → Consistent db'
Consistent-jobs db db' e k v = record {
  distinct = subst HasDistinctIds e v.distinct;
  owned = rw (← e) (rw (← k) v.owned);
  counted = rw (← e) (rw (← k) v.counted);
  needed = subst (All IsNeeded) k v.needed;
  phased = subst (All IsPhased) e v.phased;
}
