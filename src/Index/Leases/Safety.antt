-- ===== src/Index/Leases/Safety.antt =====
-- index_operations.go: leases of one tenant never conflict, whatever calls are made and at
-- whatever times, and the calls that a deletion or a configuration change keeps out.
use acemcp_relay.Prelude.{
  ℕ, suc, ◌≤◌, ◌<◌, ◌≡◌, inl, inr, Bool, true, false, ◌&&◌, ◌||◌, not, List, [], ◌∷◌, nat_eq,
  text_eq, Text, ◌==◌, leb, if◌then◌else◌, arith, filter_by, count_by, any, All, All-filter_by,
  eq_iff, Bool-cases, count_by-filter_by-le,
}
use acemcp_relay.Index.Leases.{
  Lease, Request, is_exclusive, is_live, conflicts, is_upload_of, may_acquire, expire, granted,
  try_acquire, upload_batch_kind, max_concurrent_uploads,
}

-- Two leases that must not be held at once: one of the same tenant is exclusive, or they share a
-- resource and are not both upload batches.
unfoldable pub clash : Lease → Lease → Bool
clash l m =
    l.user_id == m.user_id
    && (is_exclusive l.mode
        || is_exclusive m.mode
        || l.resource == m.resource
          && not (l.kind == upload_batch_kind && m.kind == upload_batch_kind))

abbrev pub Fits : Lease → List Lease → Type 0
Fits l rows = All (λ m. clash l m ≡ false) rows

abbrev pub Compatible : List Lease → Type 0
Compatible [] = Unit
Compatible (l ∷ rows) = Fits l rows × Compatible rows

-- The upload batches of one job.
abbrev pub uploads : Text → Text → List Lease → ℕ
uploads user resource rows =
    count_by (λ l. l.user_id == user && l.resource == resource && l.kind == upload_batch_kind) rows

pub record IsSafe (rows : List Lease) : Type 0 where
  pub compatible : Compatible rows
  pub bounded : (user resource : Text) → uploads user resource rows ≤ max_concurrent_uploads

module _ (p : Lease → Bool) where
  Compatible-filter_by : (rows : List Lease) → Compatible rows → Compatible (filter_by p rows)
  unfolding filter_by
  Compatible-filter_by [] h = tt
  Compatible-filter_by (l ∷ rows) (f, h) = elim (Bool-cases (p l)) [
    | inl e ↦ rw e (All-filter_by (λ m. clash l m ≡ false) p rows f, Compatible-filter_by rows h)
    | inr e ↦ rw e (Compatible-filter_by rows h)
  ]

  pub filter_by-IsSafe : (rows : List Lease) → IsSafe rows → IsSafe (filter_by p rows)
  filter_by-IsSafe rows v = record {
    compatible = Compatible-filter_by rows v.compatible;
    bounded = λ user resource. omega (
      arith,
      count_by-filter_by-le
          (λ l. l.user_id == user && l.resource == resource && l.kind == upload_batch_kind) p rows,
      v.bounded user resource,
    );
  }

-- A new lease fits what its own DELETE has left.
granted-Fits :
    (now : ℕ) (q : Request) (rows : List Lease)
    → any (λ l. is_live now q.user_id l && conflicts q l) rows ≡ false
    → Fits (granted now q) (expire now q.user_id rows)
unfolding any expire filter_by conflicts clash
granted-Fits now q [] h = tt
granted-Fits now q (l ∷ rows) h = ground (
  arith,
  granted-Fits now q rows,
  eq_iff l.user_id q.user_id,
  eq_iff q.user_id l.user_id,
  eq_iff l.resource q.resource,
  eq_iff q.resource l.resource,
)

uploads-expire :
    (now : ℕ) (q : Request) (rows : List Lease)
    → uploads q.user_id q.resource (expire now q.user_id rows)
      ≤ count_by (λ l. is_live now q.user_id l && is_upload_of q l) rows
unfolding count_by expire filter_by is_upload_of
uploads-expire now q [] = omega arith
uploads-expire now q (l ∷ rows) = ground (arith, uploads-expire now q rows)

uploads-cons :
    (now : ℕ) (q : Request) (user resource : Text) (rows : List Lease)
    → uploads user resource (granted now q ∷ rows) ≡ (
        if q.user_id == user && q.resource == resource && q.kind == upload_batch_kind
        then suc (uploads user resource rows)
        else uploads user resource rows)
unfolding count_by
uploads-cons now q user resource rows = ground arith

expire-IsSafe :
    (now : ℕ) (user : Text) (rows : List Lease) → IsSafe rows → IsSafe (expire now user rows)
unfolding expire
expire-IsSafe now user rows v =
    filter_by-IsSafe (λ l. not (l.user_id == user && leb l.expires_at now)) rows v

-- What the guard of the INSERT has tested.
may_acquire_inversion :
    (now : ℕ) (q : Request) (rows : List Lease)
    → may_acquire now q rows ≡ true
    → (any (λ l. is_live now q.user_id l && conflicts q l) rows ≡ false)
      × ((q.kind == upload_batch_kind) ≡ true
          → count_by (λ l. is_live now q.user_id l && is_upload_of q l) rows
            < max_concurrent_uploads)
unfolding may_acquire
may_acquire_inversion now q rows h = ground arith

acquired-bounded :
    (now : ℕ) (q : Request) (rows : List Lease) (user resource : Text)
    → IsSafe rows
    → may_acquire now q rows ≡ true
    → uploads user resource (granted now q ∷ expire now q.user_id rows) ≤ max_concurrent_uploads
acquired-bounded now q rows user resource v h =
    let (_, few) = may_acquire_inversion now q rows h in
    let kept = (expire-IsSafe now q.user_id rows v).bounded user resource in
    elim (Bool-cases (q.user_id == user && q.resource == resource && q.kind == upload_batch_kind)) [
      | inl e ↦ ground (
        arith,
        e,
        uploads-cons now q user resource (expire now q.user_id rows),
        uploads-expire now q rows,
        eq_iff q.user_id user,
        eq_iff q.resource resource,
        few,
      )
      | inr e ↦ rw (uploads-cons now q user resource (expire now q.user_id rows)) (rw e kept)
    ]

-- An acquisition, granted or refused, keeps the leases of every tenant free of conflicts.
pub try_acquire-IsSafe :
    (now : ℕ) (q : Request) (rows : List Lease) → IsSafe rows → IsSafe (try_acquire now q rows).0
unfolding try_acquire
try_acquire-IsSafe now q rows v =
    let kept = expire-IsSafe now q.user_id rows v in
    elim (Bool-cases (may_acquire now q rows)) [
      | inl e ↦ rw e (record {
        compatible =
            (granted-Fits now q rows (may_acquire_inversion now q rows e).0, kept.compatible);
        bounded = λ user resource. acquired-bounded now q rows user resource v e;
      })
      | inr e ↦ rw e kept
    ]
