-- ===== src/Strings/Splitting.antt =====
-- Splitting at a byte and joining again.
use acemcp_relay.Prelude.{
  ℕ, ◌≡◌, ◌≢◌, refl, ap, ◌∙◌, false, List, [], ◌∷◌, ◌++◌, nat_eq, Text, ◌==◌, arith, All, eq_iff,
  eq_self,
}
use acemcp_relay.Strings.{split, join, push_head}

-- No entry is the byte.
abbrev pub Lacks : ℕ → Text → Type 0
Lacks c s = All (λ a. (a == c) ≡ false) s

split-ne-nil : (c : ℕ) (s : Text) → split c s ≢ []
unfolding split push_head
split-ne-nil c [] = cc
split-ne-nil c (a ∷ s) = ground arith

push_head-Lacks :
    (c a : ℕ) (xs : List Text)
    → (a == c) ≡ false
    → All (Lacks c) xs
    → All (Lacks c) (push_head a xs)
unfolding push_head
push_head-Lacks c a [] p h = ((p, tt), tt)
push_head-Lacks c a (x ∷ xs) p (k, h) = ((p, k), h)

-- The parts hold no separator.
pub split-Lacks : (c : ℕ) (s : Text) → All (Lacks c) (split c s)
unfolding split
split-Lacks c [] = (tt, tt)
split-Lacks c (a ∷ s) = ground (arith, split-Lacks c s, push_head-Lacks c a (split c s))

join-push_head : (c a : ℕ) (xs : List Text) → join c (push_head a xs) ≡ a ∷ join c xs
unfolding push_head join
join-push_head c a [] = refl
join-push_head c a (x ∷ []) = refl
join-push_head c a (x ∷ y ∷ xs) = refl

join-nil : (c : ℕ) (xs : List Text) → xs ≢ [] → join c ([] ∷ xs) ≡ c ∷ join c xs
unfolding join
join-nil c [] h = absurd (h refl)
join-nil c (x ∷ xs) h = refl

pub join-split : (c : ℕ) (s : Text) → join c (split c s) ≡ s
unfolding split
join-split c [] = unfold join in refl
join-split c (a ∷ s) = ground (
  arith,
  join-push_head c a (split c s),
  join-nil c (split c s) (split-ne-nil c s),
  join-split c s,
  eq_iff a c,
)

split-append : (c : ℕ) (x s : Text) → Lacks c x → split c (x ++ (c ∷ s)) ≡ x ∷ split c s
unfolding split push_head
split-append c [] s h = ground (arith, eq_self c)
split-append c (a ∷ x) s (p, h) = ground (arith, split-append c x s h)

split_of_Lacks : (c : ℕ) (x : Text) → Lacks c x → split c x ≡ x ∷ []
unfolding split push_head
split_of_Lacks c [] h = refl
split_of_Lacks c (a ∷ x) (p, h) = ground (arith, split_of_Lacks c x h)

pub split-join :
    (c : ℕ) (x : Text) (xs : List Text)
    → All (Lacks c) (x ∷ xs)
    → split c (join c (x ∷ xs)) ≡ x ∷ xs
unfolding join
split-join c x [] (h, _) = split_of_Lacks c x h
split-join c x (y ∷ xs) (h, hs) =
    split-append c x (join c (y ∷ xs)) h ∙ ap (λ r. x ∷ r) (split-join c y xs hs)

push_head-All :
    (P : ℕ → Type 0) (a : ℕ) (xs : List Text) → P a → All (All P) xs → All (All P) (push_head a xs)
unfolding push_head
push_head-All P a [] p h = ((p, tt), tt)
push_head-All P a (x ∷ xs) p (k, h) = ((p, k), h)

-- What holds of every byte holds in each part.
pub split-All : (P : ℕ → Type 0) (c : ℕ) (s : Text) → All P s → All (All P) (split c s)
unfolding split
split-All P c [] h = (tt, tt)
split-All P c (a ∷ s) (p, h) =
    ground (arith, split-All P c s h, push_head-All P a (split c s) p (split-All P c s h))
