-- ===== src/Redis/Memory.antt =====
-- A server in memory that keeps the promises of the interface: the theorems about the scripts are
-- applied to it.
use acemcp_relay.Prelude.{
  ℕ, ◌+◌, ◌≡◌, refl, false, Option, none, some, text_eq, Text, ◌==◌, if◌then◌else◌, arith, eq_self,
}
use acemcp_relay.Redis.{Redis}

pub record Memory : Type 0 where
  pub counters : Text → ℕ
  pub expiries : Text → Option ℕ
  pub hashes : Text → Text → Option Text

abbrev pub update {ℓ} : {A : Type ℓ} → (Text → A) → Text → A → Text → A
update f k v j = if k == j then v else f j

abbrev pub start : Memory
start = record { counters = λ k. 0; expiries = λ k. none; hashes = λ h f. none }

module _ (m : Memory) where
  abbrev pub add : Text → ℕ → Memory
  add k n = record m { counters = update m.counters k (m.counters k + n) }

  abbrev pub set_expiry : Text → ℕ → Memory
  set_expiry k n = record m { expiries = update m.expiries k (some n) }

  abbrev pub set_field : Text → Text → Text → Memory
  set_field k f v = record m { hashes = update m.hashes k (update (m.hashes k) f (some v)) }

  pub expiries-set_expiry :
      (k : Text) (n : ℕ) (j : Text) → (k == j) ≡ false → (set_expiry k n).expiries j ≡ m.expiries j
  expiries-set_expiry k n j e = ground arith

  pub hashes-set_field_self :
      (k f v g : Text) → (set_field k f v).hashes k g ≡ (if f == g then some v else m.hashes k g)
  hashes-set_field_self k f v g = rw (eq_self k)

  pub hashes-set_field_ne :
      (k f v h g : Text) → (k == h) ≡ false → (set_field k f v).hashes h g ≡ m.hashes h g
  hashes-set_field_ne k f v h g e = rw e

abbrev pub memory : Redis
memory = record {
  State = Memory;
  counter = λ m k. m.counters k;
  ttl = λ m k. m.expiries k;
  hget = λ m h f. m.hashes h f;
  incr_by = add;
  expire = set_expiry;
  hset = set_field;
  counter-incr_by = λ s k n j. refl;
  hget-incr_by = λ s k n h f. refl;
  ttl-incr_by = λ s k n j e. refl;
  counter-expire = λ s k n j. refl;
  hget-expire = λ s k n h f. refl;
  ttl-expire = expiries-set_expiry;
  counter-hset = λ s k f v j e. refl;
  hget-hset_self = hashes-set_field_self;
  hget-hset_ne = hashes-set_field_ne;
}
