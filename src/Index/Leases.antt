-- ===== src/Index/Leases.antt =====
-- index_operations.go: the table of operation leases (`index_operation_leases`), with the
-- statements that take, renew and release one. A time is a number of milliseconds; NOW() is an
-- argument. `tryAcquireIndexOperation` runs its transaction under the tenant's advisory lock; a
-- renewal and a release are one statement each, without the lock, and one step here.
pub mod Safety
pub mod Calls
pub mod Tests
use acemcp_relay.Prelude.{
  ℕ, suc, ◌+◌, ◌≤◌, Bool, true, false, ◌&&◌, ◌||◌, not, List, [], ◌∷◌, nat_eq, text_eq, Text, bytes,
  ◌==◌, ltb, leb, if◌then◌else◌, filter_by, count_by, any,
}

-- `indexOperationMode`
pub data IndexOperationMode : Type 0 where
  shared exclusive : IndexOperationMode

abbrev pub is_exclusive : IndexOperationMode → Bool
is_exclusive shared = false
is_exclusive exclusive = true

-- A row of `index_operation_leases`.
pub record Lease : Type 0 where
  pub token : Text
  pub user_id : Text
  pub resource : Text
  pub mode : IndexOperationMode
  pub kind : Text
  pub expires_at : ℕ

abbrev pub lease_duration : ℕ
lease_duration = 120000

abbrev pub max_concurrent_uploads : ℕ
max_concurrent_uploads = 4

unfoldable pub upload_batch_kind : Text
unfolding bytes
upload_batch_kind = bytes "upload-batch"

unfoldable pub delete_root_kind : Text
unfolding bytes
delete_root_kind = bytes "delete-root-job"

-- The request of one acquisition, and what it finds in the other two tables under the lock: an
-- unfinished deletion of the tenant, an unfinished change of the embedding configuration.
pub record Request : Type 0 where
  pub token : Text
  pub user_id : Text
  pub resource : Text
  pub mode : IndexOperationMode
  pub kind : Text
  pub deleting : Bool
  pub reconfiguring : Bool

abbrev pub is_live : ℕ → Text → Lease → Bool
is_live now user l = l.user_id == user && ltb now l.expires_at

-- The rows that `WHERE NOT EXISTS (…)` looks for.
unfoldable pub conflicts : Request → Lease → Bool
conflicts q l =
    is_exclusive l.mode
    || is_exclusive q.mode
    || l.resource == q.resource && not (l.kind == upload_batch_kind && q.kind == upload_batch_kind)

unfoldable pub is_upload_of : Request → Lease → Bool
is_upload_of q l = l.resource == q.resource && l.kind == upload_batch_kind

-- `DELETE … WHERE user_id = $2 AND lease_expires_at <= NOW()`
unfoldable pub expire : ℕ → Text → List Lease → List Lease
expire now user rows = filter_by (λ l. not (l.user_id == user && leb l.expires_at now)) rows

-- The guard of the INSERT. It reads the table as it was before the statement's own DELETE, and
-- therefore tests the expiry itself.
unfoldable pub may_acquire : ℕ → Request → List Lease → Bool
may_acquire now q rows =
    not (any (λ l. is_live now q.user_id l && conflicts q l) rows)
    && (not (q.kind == upload_batch_kind)
        || ltb (count_by (λ l. is_live now q.user_id l && is_upload_of q l) rows)
            max_concurrent_uploads)
    && not (q.deleting && not (q.kind == delete_root_kind))
    && not q.reconfiguring

abbrev pub granted : ℕ → Request → Lease
granted now q = record {
  token = q.token;
  user_id = q.user_id;
  resource = q.resource;
  mode = q.mode;
  kind = q.kind;
  expires_at = now + lease_duration;
}

-- `tryAcquireIndexOperation`
unfoldable pub try_acquire : ℕ → Request → List Lease → List Lease × Bool
try_acquire now q rows =
    if may_acquire now q rows
    then (granted now q ∷ expire now q.user_id rows, true)
    else (expire now q.user_id rows, false)

-- The UPDATE of `renew`: a lease that is gone is not brought back.
unfoldable pub renew : ℕ → Text → Text → List Lease → List Lease × Bool
renew now user token [] = ([], false)
renew now user token (l ∷ rows) =
    let (rest, found) = renew now user token rows in
    if l.user_id == user && l.token == token
    then (record l { expires_at = now + lease_duration } ∷ rest, true)
    else (l ∷ rest, found)

-- The DELETE of `Release`.
unfoldable pub release : Text → Text → List Lease → List Lease
release user token rows = filter_by (λ l. not (l.user_id == user && l.token == token)) rows
