-- ===== src/Streams.antt =====
-- main.go: the SSE streams of MCP sessions (`mcpSSEStreams`), one for a session. A stream is shared
-- by the map and the handler that reads it, so that it stands in a store: streams are numbers, in
-- the order of their creation. A call changes the map under the mutex and closes a stream, or sends
-- to one, after it: what it does under the mutex is one step, a closing and a sending are others.
pub mod Tracking
pub mod Tests
use acemcp_relay.Prelude.{
  ℕ, ◌+◌, ◌-◌, Bool, true, false, ◌&&◌, ◌||◌, not, Option, none, some, text_eq, nat_eq, Text, ◌==◌,
  ltb, if◌then◌else◌,
}

-- `session_of` is the session that a stream was registered for; `waiting` is the number of events
-- in its channel. A stream is leaving from the step that takes it out of the map to the step of the
-- same call that closes it.
pub record Store : Type 0 where
  pub streams : Text → Option ℕ
  pub leaving : ℕ → Bool
  pub closed : ℕ → Bool
  pub session_of : ℕ → Text
  pub waiting : ℕ → ℕ
  pub next : ℕ

abbrev pub event_capacity : ℕ
event_capacity = 16

abbrev pub max_event : ℕ
max_event = 1048576

-- The mutex is left, and `stream.close()` follows.
abbrev pub leave : ℕ → Store → Store
leave s st = record st { leaving = λ t. if s == t then true else st.leaving t }

-- `stream.close()` of a call that took the stream out; it does nothing the second time.
unfoldable pub close : ℕ → Store → Store
close s st =
    if st.leaving s
    then record st {
      leaving = λ t. if s == t then false else st.leaving t;
      closed = λ t. if s == t then true else st.closed t;
    }
    else st

abbrev pub set_stream : Text → Option ℕ → Store → Store
set_stream k o st = record st { streams = λ j. if k == j then o else st.streams j }

abbrev pub leave_option : Option ℕ → Store → Store
leave_option none st = st
leave_option (some s) st = leave s st

-- `newMCPSSEStream`, put in the map.
abbrev pub add_stream : Text → Store → Store
add_stream k st = record st {
  streams = λ j. if k == j then some st.next else st.streams j;
  leaving = λ t. if st.next == t then false else st.leaving t;
  closed = λ t. if st.next == t then false else st.closed t;
  session_of = λ t. if st.next == t then k else st.session_of t;
  waiting = λ t. if st.next == t then 0 else st.waiting t;
  next = st.next + 1;
}

-- `registerMCPSSEStream`, up to the closing of the stream before.
unfoldable pub register : Text → Store → Store
register k st = leave_option (st.streams k) (add_stream k st)

abbrev pub is_stream : ℕ → Option ℕ → Bool
is_stream s none = false
is_stream s (some t) = t == s

-- `unregisterMCPSSEStream`, up to the closing: a stream that was replaced takes nothing out of the
-- map.
unfoldable pub unregister : Text → ℕ → Store → Store
unregister k s st = leave s (record st {
  streams = λ j. if k == j && is_stream s (st.streams k) then none else st.streams j;
})

-- `closeMCPSSEStream`, up to the closing.
unfoldable pub close_stream : Text → Store → Store
close_stream k st = leave_option (st.streams k) (set_stream k none st)

-- The `select` on the stream that was looked up, which may have left the map since. Where the
-- channel has room and the stream is closed, both of the first two cases are ready, and the runtime
-- takes either; `prefers` is whether it takes the event's.
unfoldable pub send : Bool → Text → Option ℕ → Store → Store × Bool
send prefers k none st = (st, false)
send prefers k (some s) st =
    if ltb (st.waiting s) event_capacity && (prefers || not (st.closed s))
    then (record st { waiting = λ t. if s == t then st.waiting s + 1 else st.waiting t }, true)
    else if st.closed s
    then (st, false)
    else (unregister k s st, false)

-- `publishMCPSSEEvent`; others run between the look-up and the sending.
unfoldable pub publish : (Store → Store) → Bool → Text → ℕ → Store → Store × Bool
publish others prefers k size st =
    let sent = send prefers k (st.streams k) (others st) in
    if ltb max_event size then (st, false) else sent

-- The handler takes an event from its channel.
unfoldable pub take_event : ℕ → Store → Store
take_event s st = record st { waiting = λ t. if s == t then st.waiting s - 1 else st.waiting t }
