-- ===== src/Index/Leases/Calls.antt =====
-- index_operations.go: any sequence of acquisitions, renewals and releases, by any instance and
-- at any times, and which requests are refused.
use acemcp_relay.Prelude.{
  ℕ, ◌≡◌, refl, true, false, ◌&&◌, not, List, [], ◌∷◌, nat_eq, text_eq, Text, ◌==◌, arith, count_by,
  any,
}
use acemcp_relay.Index.Leases.{
  Lease, Request, is_live, conflicts, is_upload_of, may_acquire, expire, granted, try_acquire,
  renew, release,
}
use acemcp_relay.Index.Leases.Safety.{
  clash, Fits, Compatible, uploads, IsSafe, filter_by-IsSafe, try_acquire-IsSafe,
}

module _ (now : ℕ) (user token : Text) where
  renew-Fits : (l : Lease) (rows : List Lease) → Fits l rows → Fits l (renew now user token rows).0
  unfolding renew clash
  renew-Fits l [] h = tt
  renew-Fits l (m ∷ rows) (k, h) = ground (arith, renew-Fits l rows h)

  renew-Compatible :
      (rows : List Lease) → Compatible rows → Compatible (renew now user token rows).0
  unfolding renew clash
  renew-Compatible [] h = tt
  renew-Compatible (m ∷ rows) (f, h) = ground (arith, renew-Fits m rows f, renew-Compatible rows h)

  uploads-renew :
      (u resource : Text) (rows : List Lease)
      → uploads u resource (renew now user token rows).0 ≡ uploads u resource rows
  unfolding renew count_by
  uploads-renew u resource [] = refl
  uploads-renew u resource (m ∷ rows) = ground (arith, uploads-renew u resource rows)

  renew-IsSafe : (rows : List Lease) → IsSafe rows → IsSafe (renew now user token rows).0
  renew-IsSafe rows v = record {
    compatible = renew-Compatible rows v.compatible;
    bounded = λ u resource. omega (arith, uploads-renew u resource rows, v.bounded u resource);
  }

-- One statement on the table, at the time that the database gives it.
pub data Call : Type 0 where
  acquires : ℕ → Request → Call
  renews : ℕ → Text → Text → Call
  releases : Text → Text → Call

unfoldable pub step : List Lease → Call → List Lease
step rows (acquires now q) = (try_acquire now q rows).0
step rows (renews now user token) = (renew now user token rows).0
step rows (releases user token) = release user token rows

unfoldable pub run : List Lease → List Call → List Lease
run rows [] = rows
run rows (c ∷ calls) = run (step rows c) calls

step-IsSafe : (rows : List Lease) (c : Call) → IsSafe rows → IsSafe (step rows c)
unfolding step release
step-IsSafe rows (acquires now q) v = try_acquire-IsSafe now q rows v
step-IsSafe rows (renews now user token) v = renew-IsSafe now user token rows v
step-IsSafe rows (releases user token) v =
    filter_by-IsSafe (λ l. not (l.user_id == user && l.token == token)) rows v

-- Whatever calls are made on a table without conflicts, in whatever order and with whatever times,
-- no two leases of a tenant in the table conflict, and no job has more than four upload batches.
pub run-IsSafe : (rows : List Lease) (calls : List Call) → IsSafe rows → IsSafe (run rows calls)
unfolding run
run-IsSafe rows [] v = v
run-IsSafe rows (c ∷ calls) v = run-IsSafe (step rows c) calls (step-IsSafe rows c v)

none_live :
    (now : ℕ) (q : Request) (rows : List Lease)
    → any (is_live now q.user_id) rows ≡ false
    → (any (λ l. is_live now q.user_id l && conflicts q l) rows ≡ false)
      × (count_by (λ l. is_live now q.user_id l && is_upload_of q l) rows ≡ 0)
unfolding any count_by
none_live now q [] h = (refl, refl)
none_live now q (l ∷ rows) h = ground (arith, none_live now q rows)

-- A tenant's expired leases never stand in the way: with no fence up, a tenant none of whose
-- leases is live gets any lease that it asks for.
pub try_acquire_free :
    (now : ℕ) (q : Request) (rows : List Lease)
    → any (is_live now q.user_id) rows ≡ false
    → q.deleting ≡ false
    → q.reconfiguring ≡ false
    → try_acquire now q rows ≡ (granted now q ∷ expire now q.user_id rows, true)
unfolding try_acquire may_acquire
try_acquire_free now q rows idle d c = ground (arith, none_live now q rows)
