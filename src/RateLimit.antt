-- ===== src/RateLimit.antt =====
-- mcp_index_tool.go and root_admin.go: `checkIndexStartRateLimit` and `checkDeleteRootRateLimit`,
-- which keep the time of the last admitted call of each tenant and root. Both run under a mutex,
-- and a time is a number of milliseconds.
pub mod Tests
use acemcp_relay.Prelude.{
  ℕ, ◌+◌, ◌-◌, ◌/◌, ◌<◌, ◌≡◌, ◌⊎◌, refl, ap, Bool, true, false, not, List, [], ◌∷◌, ◌++◌, Option,
  none, some, text_eq, nat_eq, Text, ◌==◌, leb, ltb, if◌then◌else◌, arith, filter_by, length,
  lookup, All, Bool-cases, inl, inr, eq_iff, eq_self,
}
use acemcp_relay.Index.Jobs.{lce_root_id}

abbrev pub Seen : Type 0
Seen = List (Text × ℕ)

abbrev pub start_interval : ℕ
start_interval = 30000

abbrev pub deletion_interval : ℕ
deletion_interval = 60000

abbrev pub max_entries : ℕ
max_entries = 4096

-- What is left of the interval, which is 0 once it has passed.
abbrev wait_for : ℕ → ℕ → Option ℕ → ℕ
wait_for interval now none = 0
wait_for interval now (some last) = last + interval - now

-- `delete` of the entries that are over.
abbrev evict : ℕ → ℕ → Seen → Seen
evict interval now seen = filter_by (λ (_, t). not (leb interval (now - t))) seen

abbrev store : Text → ℕ → Seen → Seen
store key now seen = (key, now) ∷ filter_by (λ (k, _). not (k == key)) seen

-- The wait in whole seconds, rounded up; 0 admits the call and records it.
unfoldable pub check : ℕ → Text → ℕ → Seen → Seen × ℕ
check interval key now seen =
    let wait = wait_for interval now (lookup key seen) in
    let kept = if leb max_entries (length seen) then evict interval now seen else seen in
    if ltb 0 wait then (seen, (wait + 999) / 1000) else (store key now kept, 0)

abbrev key_of : Text → Text → Text
key_of tenant root = tenant ++ 0 ∷ root

-- `checkIndexStartRateLimit`
unfoldable pub check_index_start : Text → Text → ℕ → Seen → Seen × ℕ
check_index_start tenant root now seen = check start_interval (key_of tenant root) now seen

-- `checkDeleteRootRateLimit`
unfoldable pub check_delete_root : Text → Text → ℕ → Seen → Seen × ℕ
check_delete_root tenant root now seen =
    check deletion_interval (key_of tenant (lce_root_id root)) now seen

-- Calls, each with its key and its time.
unfoldable pub run : ℕ → Seen → List (Text × ℕ) → Seen
run interval seen [] = seen
run interval seen ((key, now) ∷ calls) = run interval (check interval key now seen).0 calls

lookup-filter_by :
    (p : Text × ℕ → Bool) (k : Text) (m : Seen) {v : ℕ}
    → lookup k m ≡ some v
    → p (k, v) ≡ true
    → lookup k (filter_by p m) ≡ some v
unfolding lookup filter_by
lookup-filter_by p k [] e h = cc
lookup-filter_by p k ((j, w) ∷ m) {v} e h = elim (Bool-cases (j == k)) [
  | inl u ↦
      let same_key : j ≡ k = (eq_iff j k).0 u in
      let same_time : w ≡ v = ground (arith, e, u) in
      let passes : p (j, w) ≡ true = rw same_key (rw same_time h) in
      rw passes (rw u (ap some same_time))
  | inr u ↦
      let ih = lookup-filter_by p k m {v = v} (ground (arith, e, u)) h in
      elim (Bool-cases (p (j, w))) [ inl x ↦ rw x (rw u ih) | inr x ↦ rw x ih ]
]

check_cases :
    (interval : ℕ) (key : Text) (now : ℕ) (seen : Seen)
    → let r = (check interval key now seen).0 in
      (r ≡ seen) ⊎ (r ≡ store key now seen) ⊎ (r ≡ store key now (evict interval now seen))
unfolding check
check_cases interval key now seen = ground arith

module _ (interval : ℕ) (key : Text) (last now : ℕ) (seen : Seen) (early : now < last + interval)
    (recorded : lookup key seen ≡ some last) where
  -- Within the interval a call is refused, and changes nothing.
  check_early : check interval key now seen ≡ (seen, (last + interval - now + 999) / 1000)
  unfolding check
  check_early = rw recorded (ground (arith, early))

  lookup-evict : 0 < interval → lookup key (evict interval now seen) ≡ some last
  lookup-evict h =
      lookup-filter_by (λ (_, t). not (leb interval (now - t))) key seen {v = last} recorded
        (ground (arith, early, h))

lookup-store :
    (key other : Text) (last now : ℕ) (seen : Seen)
    → (other == key) ≡ false
    → lookup key seen ≡ some last
    → lookup key (store other now seen) ≡ some last
unfolding lookup
lookup-store key other last now seen h e = rw h (
    lookup-filter_by (λ (k, _). not (k == other)) key seen {v = last} e
      (ground (arith, h, eq_iff key other, eq_iff other key)))

module _ (interval : ℕ) (key : Text) (last : ℕ) (positive : 0 < interval) where
  -- A call within the interval leaves the entry of an earlier one.
  lookup-check :
      (other : Text) (now : ℕ) (seen : Seen)
      → now < last + interval
      → lookup key seen ≡ some last
      → lookup key (check interval other now seen).0 ≡ some last
  lookup-check other now seen h e = elim (Bool-cases (other == key)) [
    | inl u ↦
        let same = (eq_iff other key).0 u in
        rw same (rw (check_early interval key last now seen h e) e)
    | inr u ↦ elim (check_cases interval other now seen) [
      | inl x ↦ rw x e
      | inr (inl x) ↦ rw x (lookup-store key other last now seen u e)
      | inr (inr x) ↦ rw x (
          lookup-store key other last now (evict interval now seen) u
            (lookup-evict interval key last now seen h e positive))
    ]
  ]

  lookup-run :
      (seen : Seen) (calls : List (Text × ℕ))
      → All (λ (_, now). now < last + interval) calls
      → lookup key seen ≡ some last
      → lookup key (run interval seen calls) ≡ some last
  unfolding run
  lookup-run seen [] h e = e
  lookup-run seen ((other, now) ∷ calls) (k, h) e =
      lookup-run (check interval other now seen).0 calls h (lookup-check other now seen k e)

admitted :
    (interval : ℕ) (key : Text) (now : ℕ) (seen : Seen)
    → (check interval key now seen).1 ≡ 0
    → lookup key (check interval key now seen).0 ≡ some now
unfolding check lookup
admitted interval key now seen h = ground (arith, h, eq_self key)

-- Once a call of a key is admitted, every later call of it within the interval, which is not empty,
-- changes nothing and is told to wait for the rest of the interval in whole seconds, rounded up and
-- not 0, whatever calls of any keys within the interval came in between, and however full the map
-- is.
pub check_spaced :
    (interval : ℕ) (key : Text) (now : ℕ) (seen : Seen) (calls : List (Text × ℕ)) (later : ℕ)
    → 0 < interval
    → (check interval key now seen).1 ≡ 0
    → All (λ (_, t). t < now + interval) calls
    → later < now + interval
    → let seen' = run interval (check interval key now seen).0 calls in
      (check interval key later seen' ≡ (seen', (now + interval - later + 999) / 1000))
      × (0 < (now + interval - later + 999) / 1000)
check_spaced interval key now seen calls later pos h early late = (
  check_early interval key now later (run interval (check interval key now seen).0 calls) late (
      lookup-run interval key now pos (check interval key now seen).0 calls early
        (admitted interval key now seen h)),
  omega (arith, late),
)
