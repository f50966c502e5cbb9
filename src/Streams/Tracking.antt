-- ===== src/Streams/Tracking.antt =====
-- main.go: the streams in the map, and those that a call still has to close.
use acemcp_relay.Prelude.{
  ℕ, ◌≤◌, ◌<◌, ◌≡◌, refl, ap, Bool, ◌⊎◌, ◌+◌, if◌then◌else◌, true, false, ◌&&◌, List, [], ◌∷◌,
  Option, none, some, text_eq, nat_eq, Text, ◌==◌, ltb, arith, eq_iff, eq_self, Option-cases, inl,
  inr, Bool-cases,
}
use acemcp_relay.Streams.{
  Store, event_capacity, close, set_stream, add_stream, register, is_stream, unregister,
  close_stream, send, take_event, leave,
}

-- What is in the map, and what is not.
pub record IsTracked (st : Store) : Type 0 where
  pub registered :
      (k : Text) (s : ℕ)
      → st.streams k ≡ some s
      → (s < st.next) × (st.session_of s ≡ k) × (st.closed s ≡ false) × (st.leaving s ≡ false)
  pub open_found :
      (s : ℕ)
      → s < st.next
      → st.closed s ≡ false
      → st.leaving s ≡ false
      → st.streams (st.session_of s) ≡ some s
  pub bounded : (s : ℕ) → st.waiting s ≤ event_capacity

take_event-IsTracked : (s : ℕ) (st : Store) → IsTracked st → IsTracked (take_event s st)
unfolding take_event
take_event-IsTracked s st v = record {
  registered = v.registered;
  open_found = v.open_found;
  bounded = λ t. ground (arith, v.bounded t, v.bounded s);
}

is_stream_self : (s : ℕ) (o : Option ℕ) → o ≡ some s → is_stream s o ≡ true
is_stream_self s none e = absurd cc
is_stream_self s (some t) e = ground (arith, e, eq_self s)

is_stream_inversion : (s : ℕ) (o : Option ℕ) → is_stream s o ≡ true → o ≡ some s
is_stream_inversion s none e = absurd cc
is_stream_inversion s (some t) e = ap some (ground (arith, e))

module _ (k : Text) (s : ℕ) (st : Store) (own : st.session_of s ≡ k) (v : IsTracked st) where
  still_registered :
      (j : Text) (t : ℕ)
      → (unregister k s st).streams j ≡ some t
      → (t < st.next)
        × (st.session_of t ≡ j)
        × (st.closed t ≡ false)
        × ((unregister k s st).leaving t ≡ false)
  unfolding unregister
  still_registered j t e = elim (Bool-cases (k == j && is_stream s (st.streams k))) [
    | inl u ↦ absurd (ground (arith, e, u))
    | inr u ↦
        let there : st.streams j ≡ some t = ground (arith, e, u) in
        let (small, owner, open_still, stays) = v.registered j t there in
        (
          small,
          owner,
          open_still,
          ground (
            arith,
            stays,
            u,
            own,
            owner,
            there,
            eq_iff k j,
            eq_iff s t,
            is_stream_self s (st.streams k),
          ),
        )
  ]

  still_found :
      (t : ℕ)
      → t < st.next
      → st.closed t ≡ false
      → (unregister k s st).leaving t ≡ false
      → (unregister k s st).streams (st.session_of t) ≡ some t
  unfolding unregister
  still_found t h c l =
      let stays : st.leaving t ≡ false = ground (arith, l) in
      ground (
        arith,
        l,
        v.open_found t h c stays,
        eq_iff k (st.session_of t),
        eq_iff s t,
        is_stream_inversion s (st.streams k),
      )

  unregister-IsTracked : IsTracked (unregister k s st)
  unfolding unregister
  unregister-IsTracked = record {
    registered = still_registered;
    open_found = still_found;
    bounded = v.bounded;
  }

module _ (k : Text) (st : Store) (v : IsTracked st) where
  close_absent : st.streams k ≡ none → IsTracked (set_stream k none st)
  close_absent e = record {
    registered = λ j t u. ground (arith, u, v.registered j t);
    open_found = λ t h c l. ground (arith, e, eq_iff k (st.session_of t), v.open_found t h c l);
    bounded = v.bounded;
  }

  close_found : (s : ℕ) → st.streams k ≡ some s → IsTracked (leave s (set_stream k none st))
  close_found s e =
      let (_, own, _, _) = v.registered k s e in
      record {
        registered = λ j t u. ground (arith, u, own, v.registered j t, eq_iff k j, eq_iff s t);
        open_found = λ t h c l.
            ground (arith, e, l, eq_iff s t, eq_iff k (st.session_of t), v.open_found t h c);
        bounded = v.bounded;
      }

  close_stream-IsTracked : IsTracked (close_stream k st)
  unfolding close_stream
  close_stream-IsTracked = elim (Option-cases (st.streams k)) [
    | inl e ↦ rw e (close_absent e)
    | inr (s, e) ↦ rw e (close_found s e)
  ]

  add_bounded : (t : ℕ) → (add_stream k st).waiting t ≤ event_capacity
  add_bounded t = ground (arith, v.bounded t)

  register_absent : st.streams k ≡ none → IsTracked (add_stream k st)
  register_absent e = record {
    registered = λ j t u. ground (arith, u, eq_iff k j, eq_iff st.next t, v.registered j t);
    open_found = λ t h c l. ground (
      arith,
      e,
      h,
      c,
      l,
      eq_self k,
      eq_iff st.next t,
      eq_iff k (st.session_of t),
      v.open_found t,
    );
    bounded = add_bounded;
  }

  register_found : (s : ℕ) → st.streams k ≡ some s → IsTracked (leave s (add_stream k st))
  register_found s e =
      let (old, own, _, _) = v.registered k s e in
      record {
        registered = λ j t u.
            ground (arith, u, old, own, eq_iff k j, eq_iff st.next t, eq_iff s t, v.registered j t);
        open_found = λ t h c l. ground (
          arith,
          e,
          h,
          c,
          l,
          eq_self k,
          eq_iff st.next t,
          eq_iff s t,
          eq_iff k (st.session_of t),
          v.open_found t,
        );
        bounded = add_bounded;
      }

  register-IsTracked : IsTracked (register k st)
  unfolding register
  register-IsTracked = elim (Option-cases (st.streams k)) [
    | inl e ↦ rw e (register_absent e)
    | inr (s, e) ↦ rw e (register_found s e)
  ]

module _ (s : ℕ) (st : Store) (v : IsTracked st) where
  -- A stream that is leaving is not in the map.
  leaving_unfound :
      st.leaving s ≡ true → (k : Text) (t : ℕ) → st.streams k ≡ some t → (s == t) ≡ false
  leaving_unfound l k t e =
      let (_, _, _, stays) = v.registered k t e in ground (arith, l, stays, eq_iff s t)

  close-IsTracked : IsTracked (close s st)
  unfolding close
  close-IsTracked = elim (Bool-cases (st.leaving s)) [
    | inl u ↦ rw u (record {
      registered = λ k t e. ground (arith, leaving_unfound u k t e, v.registered k t e);
      open_found = λ t h c l. ground (arith, c, l, v.open_found t h);
      bounded = v.bounded;
    })
    | inr u ↦ rw u v
  ]

  send_cases :
      (prefers : Bool)
      → let r = (send prefers (st.session_of s) (some s) st).0 in
        (r ≡ st)
        ⊎ ((ltb (st.waiting s) event_capacity ≡ true)
            × (r ≡ record st { waiting = λ t. if s == t then st.waiting s + 1 else st.waiting t }))
        ⊎ (r ≡ unregister (st.session_of s) s st)
  unfolding send
  send_cases prefers = ground arith

  send-IsTracked : (prefers : Bool) → IsTracked (send prefers (st.session_of s) (some s) st).0
  send-IsTracked prefers = elim (send_cases prefers) [
    | inl e ↦ rw e v
    | inr (inl (u, e)) ↦ rw e (record {
      registered = v.registered;
      open_found = v.open_found;
      bounded = λ t. ground (arith, u, v.bounded t);
    })
    | inr (inr e) ↦ rw e (unregister-IsTracked (st.session_of s) s st refl v)
  ]

-- One step. A handler unregisters the stream that it registered, with the same session, and a
-- publisher sends to a stream that it found under its session at any time before.
pub data Call : Type 0 where
  registers detaches : Text → Call
  unregisters closes takes : ℕ → Call
  sends : Bool → ℕ → Call

unfoldable pub step : Store → Call → Store
step st (registers k) = register k st
step st (detaches k) = close_stream k st
step st (unregisters s) = unregister (st.session_of s) s st
step st (closes s) = close s st
step st (takes s) = take_event s st
step st (sends prefers s) = (send prefers (st.session_of s) (some s) st).0

unfoldable pub run : Store → List Call → Store
run st [] = st
run st (c ∷ calls) = run (step st c) calls

step-IsTracked : (st : Store) (c : Call) → IsTracked st → IsTracked (step st c)
unfolding step
step-IsTracked st (registers k) v = register-IsTracked k st v
step-IsTracked st (detaches k) v = close_stream-IsTracked k st v
step-IsTracked st (unregisters s) v = unregister-IsTracked (st.session_of s) s st refl v
step-IsTracked st (closes s) v = close-IsTracked s st v
step-IsTracked st (takes s) v = take_event-IsTracked s st v
step-IsTracked st (sends prefers s) v = send-IsTracked s st v prefers

-- Whatever steps run, in whatever order, those of different calls between each other's included, a
-- stream in the map stands under its own session, is not closed, and no call is about to close it;
-- a stream that is not closed is in the map, or the call that took it out has yet to close it; and
-- no channel holds more than sixteen events.
pub run-IsTracked : (st : Store) (calls : List Call) → IsTracked st → IsTracked (run st calls)
unfolding run
run-IsTracked st [] v = v
run-IsTracked st (c ∷ calls) v = run-IsTracked (step st c) calls (step-IsTracked st c v)
