-- ===== src/Quota/IndexBytes.antt =====
-- quota.go: index bytes, charged once a day for each file of a root (`chargeIndexFiles` with
-- `reserveFilesScript`), and by the call (`chargeIndexBytesQuota` with `chargeScript`). The state
-- is the Redis server's beside the counter `metricIndexBytes`. SHA-256 and strings.ToLower are
-- parameters.
pub mod Ledger
pub mod Charges
pub mod Tests
use acemcp_relay.Prelude.{
  ℕ, zero, suc, ◌+◌, Bool, true, false, not, ◌&&◌, ◌||◌, List, [], ◌∷◌, ◌++◌, map, Option, none,
  some, text_eq, nat_eq, Text, ◌==◌, leb, ltb, if◌then◌else◌, lookup,
}
use acemcp_relay.Prelude.Int.{ℤ, pos, is_pos, pos_part}
use acemcp_relay.Strings.{join, trim_space}
use acemcp_relay.Strings.Decimal.{format_int}
use acemcp_relay.Redis.{Redis, Delivery, delivered, not_run, reply_lost, two_days}
use acemcp_relay.Index.Path.{normalize_index_path}

pub record IndexQuotaDecision : Type 0 where
  pub allowed : Bool
  pub unavailable : Bool
  pub used : ℕ
  pub limit : ℤ
  pub charged : ℕ

pub record IndexQuotaFile : Type 0 where
  pub path : Text
  pub hash : Text
  pub bytes : ℤ

pub record IndexQuotaPool : Type 0 where
  pub limit : ℤ
  pub pool_id : Text

abbrev pub unavailable_charge : ℤ → IndexQuotaDecision
unavailable_charge limit = record {
  allowed = false;
  unavailable = true;
  used = 0;
  limit = limit;
  charged = 0;
}

-- What the scripts get of a file: the name of its field in the ledger, and its bytes.
abbrev pub Item : Type 0
Item = Text × ℕ

abbrev pub is_known : Option Text → Bool
is_known none = false
is_known (some _) = true

abbrev pub is_taken : Option ℕ → Bool
is_taken none = false
is_taken (some _) = true

-- `requested` of `chargeIndexFiles`
unfoldable pub requested_bytes : List IndexQuotaFile → ℕ
requested_bytes [] = 0
requested_bytes (f ∷ fs) = pos_part f.bytes + requested_bytes fs

module _ (sha256_hex lower : Text → Text) where
  -- The identity of a file in the ledger.
  unfoldable pub file_item : IndexQuotaFile → Item
  file_item f =
      let bytes = pos_part f.bytes in
      let identity =
        join 0
          (normalize_index_path f.path ∷ lower (trim_space f.hash) ∷ format_int (pos bytes) ∷ []) in
      (sha256_hex identity, bytes)

module _ (r : Redis) where
  open r use {State, counter, ttl, hget, incr_by, expire, hset}

  -- The loop of `reserveFilesScript`: the table `unseen`, and `newly_charged`.
  unfoldable pub collect : State → Text → List Item → ℕ → List Item → List Item × ℕ
  collect s ledger unseen newly [] = (unseen, newly)
  collect s ledger unseen newly ((token, bytes) ∷ items) =
      let fresh =
        ltb 0 bytes
        && not (is_taken (lookup token unseen))
        && not (is_known (hget s ledger token)) in
      collect s ledger (if fresh then (token, bytes) ∷ unseen else unseen)
        (if fresh then newly + bytes else newly) items

  -- HSET for each pair of `unseen`
  unfoldable pub write_all : State → Text → List Item → State
  write_all s ledger [] = s
  write_all s ledger ((token, bytes) ∷ unseen) =
      write_all (hset s ledger token (format_int (pos bytes))) ledger unseen

  -- `if redis.call('TTL', key) < 0 then redis.call('EXPIRE', key, ttl) end`
  unfoldable pub set_expiry : State → Text → State
  set_expiry s key = elim (ttl s key) [ none ↦ expire s key two_days | some _ ↦ s ]

  -- `reserveFilesScript`
  unfoldable pub reserve_files_script : State → Text → Text → ℕ → List Item → State × List ℕ
  reserve_files_script s key ledger limit items =
      let (unseen, newly) = collect s ledger [] 0 items in
      let s' = incr_by (write_all s ledger unseen) key newly in
      if ltb limit (counter s key + newly)
      then (s, 0 ∷ counter s key ∷ 0 ∷ [])
      else if ltb 0 newly
      then (set_expiry (set_expiry s' key) ledger, 1 ∷ counter s' key ∷ newly ∷ [])
      else (s, 1 ∷ counter s key ∷ 0 ∷ [])

  -- `chargeScript`
  unfoldable pub charge_script : State → Text → ℕ → ℕ → State × List ℕ
  charge_script s key requested limit =
      let s' = incr_by s key requested in
      if ltb limit (counter s key + requested)
      then (s, 0 ∷ counter s key ∷ [])
      else (if counter s key == 0 then expire s' key two_days else s', 1 ∷ counter s' key ∷ [])

-- Behind Eval, `chargeIndexFiles` wants three numbers and `chargeIndexBytesQuota` two.
unfoldable pub files_decision : ℤ → List ℕ → IndexQuotaDecision
files_decision limit (allowed ∷ used ∷ charged ∷ []) = record {
  allowed = allowed == 1;
  unavailable = false;
  used = used;
  limit = limit;
  charged = charged;
}
files_decision limit _ = unavailable_charge limit

unfoldable pub bytes_decision : ℤ → ℕ → List ℕ → IndexQuotaDecision
bytes_decision limit bytes (allowed ∷ used ∷ []) = record {
  allowed = allowed == 1;
  unavailable = false;
  used = used;
  limit = limit;
  charged = if allowed == 1 then bytes else 0;
}
bytes_decision limit bytes _ = unavailable_charge limit

-- `metricIndexBytes.Add`, as both callers guard it.
abbrev pub meter : ℕ → IndexQuotaDecision → ℕ
meter total d = if d.allowed then total + d.charged else total

module _ (r : Redis) where
  open r use {State, counter}

  -- The call of Eval in `chargeIndexFiles`, and what follows it.
  unfoldable pub charge_limited :
      Delivery → State × ℕ → ℤ → Text → Text → List Item → (State × ℕ) × IndexQuotaDecision
  charge_limited delivered (s, total) limit key ledger items =
      let (s', reply) = reserve_files_script r s key ledger (pos_part limit) items in
      let d = files_decision limit reply in ((s', meter total d), d)
  charge_limited not_run (s, total) limit key ledger items = ((s, total), unavailable_charge limit)
  charge_limited reply_lost (s, total) limit key ledger items = (
    ((reserve_files_script r s key ledger (pos_part limit) items).0, total),
    unavailable_charge limit,
  )

  -- `chargeIndexFiles`, behind the resolution of the pool: its limit, and the day's two keys.
  unfoldable pub charge_index_files :
      (Text → Text)
      → (Text → Text)
      → Delivery
      → State × ℕ
      → ℤ
      → Text
      → Text
      → List IndexQuotaFile
      → (State × ℕ) × IndexQuotaDecision
  charge_index_files sha256_hex lower d (s, total) limit key ledger files =
      let requested = requested_bytes files in
      if requested == 0
      then (
        (s, total),
        record { allowed = true; unavailable = false; used = 0; limit = limit; charged = 0 },
      )
      else if not (is_pos limit)
      then (
        (s, total + requested),
        record {
          allowed = true;
          unavailable = false;
          used = 0;
          limit = limit;
          charged = requested;
        },
      )
      else charge_limited d (s, total) limit key ledger (map (file_item sha256_hex lower) files)

  -- The call of Eval in `chargeIndexBytesQuota`, and what follows it.
  unfoldable pub eval_bytes : Delivery → State → ℤ → Text → ℕ → State × IndexQuotaDecision
  eval_bytes delivered s limit key bytes =
      let (s', reply) = charge_script r s key bytes (pos_part limit) in
      (s', bytes_decision limit bytes reply)
  eval_bytes not_run s limit key bytes = (s, unavailable_charge limit)
  eval_bytes reply_lost s limit key bytes =
      ((charge_script r s key bytes (pos_part limit)).0, unavailable_charge limit)

  -- `chargeIndexBytes` with `chargeIndexBytesQuota`, behind the resolution of the pool.
  unfoldable pub charge_index_bytes :
      Delivery → State × ℕ → ℤ → Text → ℤ → (State × ℕ) × IndexQuotaDecision
  charge_index_bytes d (s, total) limit key bytes =
      let free : IndexQuotaDecision = record {
        allowed = true;
        unavailable = false;
        used = 0;
        limit = limit;
        charged = pos_part bytes;
      } in
      let (s', decision) = eval_bytes d s limit key (pos_part bytes) in
      if not (is_pos limit) || not (is_pos bytes)
      then ((s, meter total free), free)
      else ((s', meter total decision), decision)
