-- ===== src/Sessions/Eviction.antt =====
-- main.go: what eviction removes (`evictOldestMCPSession`), and where its loop ends.
use acemcp_relay.Prelude.{
  ℕ, zero, suc, ◌≤◌, ◌<◌, ◌≡◌, refl, sym, Bool, true, false, not, ◌&&◌, [], ◌∷◌, Option, none, some,
  text_eq, nat_eq, Text, ◌==◌, ltb, leb, arith, filter_by, count_by, All, eq_self,
  count_by-filter_by-le, Bool-cases, inl, inr,
}
use acemcp_relay.Sessions.{
  Session, Sessions, is_candidate, is_older, older, oldest, remove, evict, evict_oldest, shrink,
}

-- What holds of the best session so far and of every candidate holds of the oldest.
abbrev Best : (Session → Type 0) → Option Session → Type 0
Best P none = Unit
Best P (some s) = P s

older-Best :
    (P : Session → Type 0) (s : Session) (best : Option Session)
    → P s
    → Best P best
    → Best P (older s best)
older-Best P s none p b = p
older-Best P s (some t) p b = elim (Bool-cases (is_older s t)) [ inl e ↦ rw e p | inr e ↦ rw e b ]

oldest-Best :
    (P : Session → Type 0) (user : Text) (sessions : Sessions) (best : Option Session)
    → All (λ s. is_candidate user s ≡ true → P s) sessions
    → Best P best
    → Best P (oldest user best sessions)
unfolding oldest
oldest-Best P user [] best h b = b
oldest-Best P user (s ∷ sessions) best (p, h) b = elim (Bool-cases (is_candidate user s)) [
  | inl e ↦ rw e (oldest-Best P user sessions (older s best) h (older-Best P s best (p e) b))
  | inr e ↦ rw e (oldest-Best P user sessions best h b)
]

abbrev is_none : Option Session → Bool
is_none none = true
is_none (some _) = false

oldest-some :
    (user : Text) (sessions : Sessions) (s : Session)
    → is_none (oldest user (some s) sessions) ≡ false
unfolding oldest
oldest-some user [] s = refl
oldest-some user (t ∷ sessions) s =
    ground (arith, oldest-some user sessions t, oldest-some user sessions s)

oldest_exists :
    (user : Text) (sessions : Sessions)
    → 0 < count_by (is_candidate user) sessions
    → is_none (oldest user none sessions) ≡ false
unfolding oldest count_by
oldest_exists user [] h = ground arith
oldest_exists user (s ∷ sessions) h =
    ground (arith, oldest-some user sessions s, oldest_exists user sessions)

All-imp :
    {P Q : Session → Type 0} (sessions : Sessions)
    → ((s : Session) → P s → Q s)
    → All P sessions
    → All Q sessions
All-imp [] f h = tt
All-imp (s ∷ sessions) f (p, h) = (f s p, All-imp sessions f h)

count_by_ext :
    (p q : Session → Bool) (sessions : Sessions)
    → ((s : Session) → p s ≡ q s)
    → count_by p sessions ≡ count_by q sessions
unfolding count_by
count_by_ext p q [] same = refl
count_by_ext p q (s ∷ sessions) same = ground (arith, same s, count_by_ext p q sessions same)

module _ (q : Session → Bool) where
  count_by-remove-le :
      (id : Text) (sessions : Sessions) → count_by q (remove id sessions) ≤ count_by q sessions
  unfolding remove
  count_by-remove-le id sessions = count_by-filter_by-le q (λ s. not (s.id == id)) sessions

  removed_first :
      (s : Session) (sessions : Sessions)
      → q s ≡ true
      → count_by q (remove s.id (s ∷ sessions)) < count_by q (s ∷ sessions)
  unfolding remove filter_by count_by
  removed_first s sessions e =
      rw (eq_self s.id)
        (rw e (omega (arith, count_by-filter_by-le q (λ t. not (t.id == s.id)) sessions)))

  removed_later :
      (s t : Session) (sessions : Sessions)
      → (q t ≡ true → count_by q (remove t.id sessions) < count_by q sessions)
      → q t ≡ true
      → count_by q (remove t.id (s ∷ sessions)) < count_by q (s ∷ sessions)
  unfolding remove filter_by count_by
  removed_later s t sessions h e = ground (arith, h e)

  -- Removing a session that counts makes the count smaller.
  removal :
      (sessions : Sessions)
      → All (λ s. q s ≡ true → count_by q (remove s.id sessions) < count_by q sessions) sessions
  removal [] = tt
  removal (s ∷ sessions) = (
    removed_first s sessions,
    All-imp sessions (λ t h. removed_later s t sessions h) (removal sessions),
  )

  evict_oldest-le :
      (user : Text) (sessions : Sessions)
      → count_by q (evict_oldest user sessions).0 ≤ count_by q sessions
  unfolding evict_oldest
  evict_oldest-le user sessions = evict_le (oldest user none sessions)
    where
      evict_le :
          (found : Option Session) → count_by q (evict found sessions).0 ≤ count_by q sessions
      evict_le none = omega arith
      evict_le (some s) = count_by-remove-le s.id sessions

  pub shrink-le :
      (user : Text) (limit : ℕ) (count : Sessions → ℕ) (fuel : ℕ) (sessions : Sessions)
      → count_by q (shrink user limit count fuel sessions).0 ≤ count_by q sessions
  unfolding shrink
  shrink-le user limit count zero sessions = omega arith
  shrink-le user limit count (suc fuel) sessions =
      elim (Bool-cases (ltb 0 limit && leb limit (count sessions))) [
        | inl e ↦ rw e (
            omega (
              arith,
              shrink-le user limit count fuel (evict_oldest user sessions).0,
              evict_oldest-le user sessions,
            ))
        | inr e ↦ rw e (omega arith)
      ]

  -- Among the candidates, eviction takes one.
  evict_oldest-lt :
      (user : Text) (sessions : Sessions)
      → ((s : Session) → is_candidate user s ≡ q s)
      → 0 < count_by q sessions
      → count_by q (evict_oldest user sessions).0 < count_by q sessions
  unfolding evict_oldest
  evict_oldest-lt user sessions same more =
      evicts (oldest user none sessions)
        (oldest_exists user sessions
          (omega (arith, more, count_by_ext (is_candidate user) q sessions same)))
        (oldest-Best (λ s. count_by q (remove s.id sessions) < count_by q sessions) user sessions
          none (All-imp sessions (λ s h e. h (rw (sym (same s)) e)) (removal sessions)) tt)
    where
      evicts :
          (found : Option Session)
          → is_none found ≡ false
          → Best (λ s. count_by q (remove s.id sessions) < count_by q sessions) found
          → count_by q (evict found sessions).0 < count_by q sessions
      evicts none e b = absurd cc
      evicts (some s) e b = b

  -- The loop ends below the limit that its count tests.
  pub shrink-lt :
      (user : Text) (limit : ℕ) (count : Sessions → ℕ)
      → ((s : Session) → is_candidate user s ≡ q s)
      → ((sessions : Sessions) → count sessions ≡ count_by q sessions)
      → 0 < limit
      → (fuel : ℕ) (sessions : Sessions) → count_by q sessions ≤ fuel
      → count_by q (shrink user limit count fuel sessions).0 < limit
  unfolding shrink
  shrink-lt user limit count same counts positive zero sessions enough =
      omega (arith, positive, enough)
  shrink-lt user limit count same counts positive (suc fuel) sessions enough =
      elim (Bool-cases (ltb 0 limit && leb limit (count sessions))) [
        | inl e ↦
            let many : 0 < count_by q sessions = ground (arith, e, positive, counts sessions) in
            rw e (
              shrink-lt user limit count same counts positive fuel (evict_oldest user sessions).0
                (omega (arith, enough, evict_oldest-lt user sessions same many)))
        | inr e ↦ rw e (ground (arith, e, positive, counts sessions))
      ]
