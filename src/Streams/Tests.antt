-- ===== src/Streams/Tests.antt =====
-- Streams that replace each other, and the input at which the theorem is applied.
use acemcp_relay.Prelude.{◌≡◌, refl, true, false, List, [], ◌∷◌, some, none, bytes, text_beq, arith}
use acemcp_relay.Streams.{
  Store, close, register, unregister, close_stream, send, publish, take_event,
}
use acemcp_relay.Streams.Tracking.{
  IsTracked, Call, registers, unregisters, closes, sends, step, run, run-IsTracked,
}

events : Unit {0}
unfolding bytes text_beq register unregister close_stream close send publish take_event step run
events = tt

abbrev no_streams : Store
no_streams = record {
  streams = λ k. none;
  leaving = λ s. false;
  closed = λ s. false;
  session_of = λ s. [];
  waiting = λ s. 0;
  next = 0;
}

-- The second stream of a session replaces the first, whose handler then leaves.
abbrev replaced : List Call
replaced =
    registers (bytes "a")
    ∷ registers (bytes "a")
    ∷ closes 0
    ∷ unregisters 0
    ∷ closes 0
    ∷ sends true 1
    ∷ []

second_stays : (run no_streams replaced).streams (bytes "a") ≡ some 1
unfolding events
second_stays = refl

event_waits : (run no_streams replaced).waiting 1 ≡ 1
unfolding events
event_waits = refl

-- An event reaches the stream, and one that is too long does not.
published : (publish (λ st. st) false (bytes "a") 5 (run no_streams replaced)).1 ≡ true
unfolding events
published = refl

too_long : (publish (λ st. st) false (bytes "a") 1048577 (run no_streams replaced)).1 ≡ false
unfolding events
too_long = refl

no_streams-IsTracked : IsTracked no_streams
no_streams-IsTracked = record {
  registered = λ k s e. absurd cc;
  open_found = λ s h c l. absurd (ground (arith, h));
  bounded = λ s. omega arith;
}

run-IsTracked_example : IsTracked (run no_streams replaced)
run-IsTracked_example = run-IsTracked no_streams replaced no_streams-IsTracked
