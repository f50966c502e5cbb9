-- ===== src/Redis.antt =====
-- The Redis server that quota.go and swift_quota.go run their Lua scripts on. It is a parameter:
-- its commands, with what their documentation promises of the keys that the scripts read.
pub mod Memory
use acemcp_relay.Prelude.{
  ℕ, ◌+◌, ◌≡◌, Option, none, some, false, text_eq, Text, ◌==◌, if◌then◌else◌,
}

pub record Redis : Type 1 where
  pub State : Type 0
  -- `tonumber(redis.call('GET', key) or '0')`
  pub counter : State → Text → ℕ
  -- `redis.call('TTL', key)`: `none` where the reply is negative, for no key or no expiry.
  pub ttl : State → Text → Option ℕ
  -- `redis.call('HGET', key, field)`
  pub hget : State → Text → Text → Option Text
  pub incr_by : State → Text → ℕ → State
  pub expire : State → Text → ℕ → State
  pub hset : State → Text → Text → Text → State
  -- INCRBY adds to its own key, sets no expiry, and touches no hash.
  pub counter-incr_by :
      (s : State) (k : Text) (n : ℕ) (j : Text)
      → counter (incr_by s k n) j ≡ (if k == j then counter s k + n else counter s j)
  pub hget-incr_by :
      (s : State) (k : Text) (n : ℕ) (h f : Text) → hget (incr_by s k n) h f ≡ hget s h f
  pub ttl-incr_by :
      (s : State) (k : Text) (n : ℕ) (j : Text) → (k == j) ≡ false → ttl (incr_by s k n) j ≡ ttl s j
  -- EXPIRE with a time to come changes no value.
  pub counter-expire :
      (s : State) (k : Text) (n : ℕ) (j : Text) → counter (expire s k n) j ≡ counter s j
  pub hget-expire :
      (s : State) (k : Text) (n : ℕ) (h f : Text) → hget (expire s k n) h f ≡ hget s h f
  pub ttl-expire :
      (s : State) (k : Text) (n : ℕ) (j : Text) → (k == j) ≡ false → ttl (expire s k n) j ≡ ttl s j
  -- HSET writes one field of one hash, and no other key.
  pub counter-hset :
      (s : State) (k f v j : Text) → (k == j) ≡ false → counter (hset s k f v) j ≡ counter s j
  pub hget-hset_self :
      (s : State) (k f v g : Text)
      → hget (hset s k f v) k g ≡ (if f == g then some v else hget s k g)
  pub hget-hset_ne :
      (s : State) (k f v h g : Text) → (k == h) ≡ false → hget (hset s k f v) h g ≡ hget s h g

-- What becomes of one call of `redisClient.Eval`: it runs and its reply arrives, it never runs, or
-- it runs and the reply is lost. The last two are an error to the caller.
pub data Delivery : Type 0 where
  delivered not_run reply_lost : Delivery

-- `ttl` of 48 hours, in seconds.
abbrev pub two_days : ℕ
two_days = 172800
