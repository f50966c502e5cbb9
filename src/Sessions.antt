-- ===== src/Sessions.antt =====
-- main.go: the MCP sessions of the server (`serverSessions`), under their mutex: expiry, eviction
-- of the oldest, the slot for a new session, and a session's use. The order of Go's map is the
-- order of the list. A time is in milliseconds.
pub mod Eviction
pub mod Bounds
pub mod Tests
use acemcp_relay.Prelude.{
  ℕ, zero, suc, ◌+◌, ◌-◌, Bool, true, false, not, ◌&&◌, ◌||◌, List, [], ◌∷◌, ◌++◌, Option, none,
  some, text_eq, nat_eq, Text, ◌==◌, ltb, leb, if◌then◌else◌, length, filter_by, count_by,
}

-- `mcpServerSession`, with its key in the map.
pub record Session : Type 0 where
  pub id : Text
  pub user_id : Text
  pub last_activity : ℕ

abbrev pub Sessions : Type 0
Sessions = List Session

-- `now.Sub(session.lastActivity) > ttl`
abbrev pub is_idle : ℕ → ℕ → Session → Bool
is_idle now ttl s = ltb (s.last_activity + ttl) now

abbrev pub ids : Sessions → List Text
ids [] = []
ids (s ∷ sessions) = s.id ∷ ids sessions

-- `pruneExpiredMCPSessions`: the sessions that stay, and the ids that go.
unfoldable pub prune_expired : ℕ → ℕ → Sessions → Sessions × List Text
prune_expired now ttl sessions =
    (filter_by (λ s. not (is_idle now ttl s)) sessions, ids (filter_by (is_idle now ttl) sessions))

-- `a < b` of Go's strings.
unfoldable pub text_lt : Text → Text → Bool
text_lt [] [] = false
text_lt [] (_ ∷ _) = true
text_lt (_ ∷ _) [] = false
text_lt (a ∷ s) (b ∷ t) =
    let rest = text_lt s t in if ltb a b then true else if ltb b a then false else rest

abbrev pub is_older : Session → Session → Bool
is_older s t =
    ltb s.last_activity t.last_activity || s.last_activity == t.last_activity && text_lt s.id t.id

-- The empty user stands for any user.
abbrev pub is_candidate : Text → Session → Bool
is_candidate user s = user == [] || s.user_id == user

abbrev pub older : Session → Option Session → Option Session
older s none = some s
older s (some best) = if is_older s best then some s else some best

-- The loop of `evictOldestMCPSession`, from the session found so far.
unfoldable pub oldest : Text → Option Session → Sessions → Option Session
oldest user best [] = best
oldest user best (s ∷ sessions) =
    let next = if is_candidate user s then older s best else best in oldest user next sessions

unfoldable pub remove : Text → Sessions → Sessions
remove id sessions = filter_by (λ s. not (s.id == id)) sessions

abbrev pub evict : Option Session → Sessions → Sessions × Option Text
evict none sessions = (sessions, none)
evict (some s) sessions = (remove s.id sessions, some s.id)

-- `evictOldestMCPSession`
unfoldable pub evict_oldest : Text → Sessions → Sessions × Option Text
evict_oldest user sessions = evict (oldest user none sessions) sessions

-- `countMCPSessionsForUser`
unfoldable pub count_for_user : Text → Sessions → ℕ
count_for_user user sessions = count_by (λ s. s.user_id == user) sessions

-- One of the two loops of `prepareMCPSessionSlot`, with the count that its condition tests.
module _ (user : Text) (limit : ℕ) (count : Sessions → ℕ) where
  abbrev evicted : Option Text → List Text → List Text
  evicted none ids' = ids'
  evicted (some id) ids' = id ∷ ids'

  unfoldable pub shrink : ℕ → Sessions → Sessions × List Text
  shrink zero sessions = (sessions, [])
  shrink (suc fuel) sessions =
      let (kept, id) = evict_oldest user sessions in
      let (rest, more) = shrink fuel kept in
      if ltb 0 limit && leb limit (count sessions) then (rest, evicted id more) else (sessions, [])

-- `prepareMCPSessionSlot`: the sessions, the expired and the evicted. No loop evicts more often
-- than there are sessions.
unfoldable pub prepare_slot : Text → ℕ → ℕ → ℕ → ℕ → Sessions → Sessions × List Text × List Text
prepare_slot user now ttl per_user_limit global_limit sessions =
    let (live, expired) = prune_expired now ttl sessions in
    let (own, mine) = shrink user per_user_limit (count_for_user user) (length live) live in
    let (kept, others) = shrink [] global_limit length (length own) own in
    (kept, expired, mine ++ others)

-- `touchMCPSession`
unfoldable pub touch : Text → Text → ℕ → Sessions → Sessions × Bool
touch id user now [] = ([], false)
touch id user now (s ∷ sessions) =
    let (rest, found) = touch id user now sessions in
    if s.id == id
    then (if s.user_id == user
        then (record s { last_activity = now } ∷ sessions, true)
        else (s ∷ sessions, false))
    else (s ∷ rest, found)
