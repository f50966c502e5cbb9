-- ===== src/Quota/Swift.antt =====
-- swift_quota.go: the bytes of Swift uploads, charged once for each part of a job
-- (`chargeSwiftPart`), the checks before them (`reserveSwiftUpload`), and the rate of
-- synchronisation requests (`admitDeferredMCPQuota`). SHA-256 in hexadecimal and base64 are
-- parameters.
pub mod Charges
pub mod Tests
use acemcp_relay.Prelude.{
  ℕ, ◌+◌, ◌*◌, ◌/◌, Bool, true, false, not, ◌&&◌, ◌||◌, List, [], ◌∷◌, ◌++◌, Option, none, some,
  text_eq, nat_eq, Text, ◌==◌, leb, ltb, if◌then◌else◌, length,
}
use acemcp_relay.Prelude.Int.{ℤ, pos, negsuc, int_eq, is_pos, pos_part}
use acemcp_relay.Strings.{trim_space}
use acemcp_relay.Strings.Decimal.{format_int}
use acemcp_relay.Redis.{Redis, Delivery, delivered, not_run, reply_lost, two_days}
use acemcp_relay.Quota.IndexBytes.{IndexQuotaDecision, IndexQuotaPool, unavailable_charge}

abbrev pub swift_sync_part_bytes : ℕ
swift_sync_part_bytes = 262144

abbrev pub swift_sync_max_parts : ℕ
swift_sync_max_parts = 512

abbrev pub swift_sync_requests_per_minute : ℕ
swift_sync_requests_per_minute = 600

-- The arguments of the charging script beside its two keys: the part's field, what identifies its
-- content, its size, and the limit.
pub record PartCharge : Type 0 where
  pub counter_key : Text
  pub ledger_key : Text
  pub part : Text
  pub token : Text
  pub size : ℕ
  pub limit : ℤ

-- The three numbers that the script replies.
pub record PartReply : Type 0 where
  pub status : ℤ
  pub used : ℕ
  pub charged : ℕ

abbrev pub part_reply : ℤ → ℕ → ℕ → PartReply
part_reply status used charged = record { status = status; used = used; charged = charged }

module _ (r : Redis) where
  open r use {State, counter, hget, incr_by, expire, hset}

  -- The script after its checks.
  unfoldable pub write_part : State → PartCharge → State
  write_part s q =
      let charged = hset (incr_by s q.counter_key q.size) q.ledger_key q.part q.token in
      expire (expire charged q.counter_key two_days) q.ledger_key two_days

  -- The script, by what the ledger has for the part. The reply is its three numbers.
  unfoldable pub part_script : State → PartCharge → Option Text → State × PartReply
  part_script s q (some previous) =
      if not (previous == q.token)
      then (s, part_reply (negsuc 0) (counter s q.counter_key) 0)
      else (expire s q.ledger_key two_days, part_reply (pos 1) (counter s q.counter_key) 0)
  part_script s q none =
      if is_pos q.limit && ltb (pos_part q.limit) (counter s q.counter_key + q.size)
      then (s, part_reply (pos 0) (counter s q.counter_key) 0)
      else (
        write_part s q,
        part_reply (pos 1) (counter (incr_by s q.counter_key q.size) q.counter_key) q.size,
      )

  unfoldable pub swift_script : State → PartCharge → State × PartReply
  swift_script s q = part_script s q (hget s q.ledger_key q.part)

  -- The decision, and whether the part is in conflict.
  unfoldable pub part_decision : ℤ → PartReply → IndexQuotaDecision × Bool
  part_decision limit reply = (
    record {
      allowed = reply.status == pos 1;
      unavailable = false;
      used = reply.used;
      limit = limit;
      charged = reply.charged;
    },
    reply.status == negsuc 0,
  )

  -- `chargeSwiftPart` behind its keys. `metric` is the counter `metricIndexBytes`.
  unfoldable pub charge_part :
      Delivery → State × ℕ → PartCharge → (State × ℕ) × IndexQuotaDecision × Bool
  charge_part delivered (s, metric) q =
      let (s', reply) = swift_script s q in
      let (decision, conflict) = part_decision q.limit reply in
      ((s', metric + decision.charged), decision, conflict)
  charge_part not_run (s, metric) q = ((s, metric), unavailable_charge q.limit, false)
  charge_part reply_lost (s, metric) q =
      (((swift_script s q).0, metric), unavailable_charge q.limit, false)

  -- The rate script: one more request of the minute, if there is room.
  unfoldable pub rate_script : State → Text → ℕ → State × Bool
  rate_script s k most =
      if leb most (counter s k)
      then (s, false)
      else (if counter s k == 0 then expire (incr_by s k 1) k 60 else incr_by s k 1, true)

module _ (sha256_hex : Text → Text) where
  abbrev pub part_token : Text → Text
  part_token payload = sha256_hex payload ++ (b':' ∷ format_int (pos (length payload)))

  -- `chargeSwiftPart`'s arguments. The counter's key is `indexBytesKeyAt`, with the day.
  abbrev pub part_charge : IndexQuotaPool → Text → Text → Text → Text → ℕ → Text → PartCharge
  part_charge quota counter_key ledger_prefix root job part payload = record {
    counter_key = counter_key;
    ledger_key = ledger_prefix ++ sha256_hex (root ++ (0 ∷ job));
    part = format_int (pos part);
    token = part_token payload;
    size = length payload;
    limit = quota.limit;
  }

-- The arguments of an upload as they decode: `none` for an absent or mistyped one. `job` is the
-- parsed UUID, and `part` the number if it is whole.
pub record Upload : Type 0 where
  pub payload : Option Text
  pub job : Option Text
  pub part : Option ℤ
  pub root : Option Text

-- `base64.StdEncoding.EncodedLen`
abbrev pub encoded_len : ℕ → ℕ
encoded_len n = (n + 2) / 3 * 4

pub record CheckedUpload : Type 0 where
  pub root : Text
  pub job : Text
  pub part : ℕ
  pub content : Text

module _ (decode : Text → Option Text) (encode : Text → Text) where
  -- The content has to be the canonical encoding of one to 262144 bytes.
  unfoldable pub check_content : Text → Option Text → Option Text
  check_content payload none = none
  check_content payload (some content) =
      if content == []
        || ltb swift_sync_part_bytes (length content)
        || not (encode content == payload)
      then none
      else some content

  unfoldable pub check_part : Text → Text → ℕ → Text → Option CheckedUpload
  check_part payload job part root =
      let checked : Option CheckedUpload = elim (check_content payload (decode payload)) [
        | none ↦ none
        | some content ↦
            some (record { root = trim_space root; job = job; part = part; content = content })
      ] in
      if leb swift_sync_max_parts part
        || trim_space root == []
        || ltb (encoded_len swift_sync_part_bytes) (length payload)
      then none
      else checked

  -- The two refusals of `reserveSwiftUpload` with SWIFT_SYNC_INVALID before it charges.
  unfoldable pub check_upload :
      Option Text → Option Text → Option ℤ → Option Text → Option CheckedUpload
  check_upload (some payload) (some job) (some (pos part)) (some root) =
      check_part payload job part root
  check_upload _ _ _ _ = none
