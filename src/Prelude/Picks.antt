-- ===== src/Prelude/Picks.antt =====
-- What a test on the rows of a table picks, counts and finds.
use Prim.Native.Nat.{◌+◌, ◌≤◌}
use mathlib.Core.Path.{◌≡◌, refl, subst, ap}
use mathlib.Core.Logic.{inl, inr}
use mathlib.Core.Bool.{Bool, true, false, not}
use mathlib.Core.Option.{some}
use mathlib.Core.List.{List, [], ◌∷◌, ◌++◌}
use native.Mathlib.Omega.{arith}
use acemcp_relay.Prelude.Tests.{Bool-cases}
use acemcp_relay.Prelude.Lists.{filter_by, count_by, any, All}
use acemcp_relay.Prelude.Tables.{update_where, find}

module _ {ℓ} {A : Type ℓ} where
  -- Rows that a test does not pick may be removed unseen by it.
  pub count_by-filter_by-unseen :
      (q p : A → Bool) (xs : List A)
      → All (λ x. q x ≡ true → p x ≡ true) xs
      → count_by q (filter_by p xs) ≡ count_by q xs
  unfolding count_by filter_by
  count_by-filter_by-unseen q p [] h = refl
  count_by-filter_by-unseen q p (x ∷ xs) (k, h) =
      ground (arith, k, count_by-filter_by-unseen q p xs h)

  pub filter_by-filter_by-unseen :
      (q p : A → Bool) (xs : List A)
      → All (λ x. q x ≡ true → p x ≡ true) xs
      → filter_by q (filter_by p xs) ≡ filter_by q xs
  unfolding filter_by
  filter_by-filter_by-unseen q p [] h = refl
  filter_by-filter_by-unseen q p (x ∷ xs) (k, h) =
      ground (arith, k, filter_by-filter_by-unseen q p xs h)

  -- An update after which a test picks the updated rows as well.
  pub count_by-update_where-sum :
      (q p : A → Bool) (f : A → A)
      → ((x : A) → p x ≡ true → (q x ≡ false) × (q (f x) ≡ true))
      → (xs : List A) → count_by q (update_where p f xs) ≡ count_by q xs + count_by p xs
  unfolding count_by update_where
  count_by-update_where-sum q p f h [] = refl
  count_by-update_where-sum q p f h (x ∷ xs) =
      ground (arith, h x, count_by-update_where-sum q p f h xs)

  pub count_by_nowhere :
      (q : A → Bool) (xs : List A) → All (λ x. q x ≡ false) xs → count_by q xs ≡ 0
  unfolding count_by
  count_by_nowhere q [] h = refl
  count_by_nowhere q (x ∷ xs) (k, h) = ground (arith, k, count_by_nowhere q xs h)

  pub any-filter_by :
      (q p : A → Bool) (xs : List A) → any q xs ≡ false → any q (filter_by p xs) ≡ false
  unfolding any filter_by
  any-filter_by q p [] h = refl
  any-filter_by q p (x ∷ xs) h = ground (arith, any-filter_by q p xs)

  pub any-All : (q : A → Bool) (xs : List A) → any q xs ≡ false → All (λ x. q x ≡ false) xs
  unfolding any
  any-All q [] h = tt
  any-All q (x ∷ xs) h = (ground arith, any-All q xs (ground arith))

  pub any_of_All : (q : A → Bool) (xs : List A) → All (λ x. q x ≡ false) xs → any q xs ≡ false
  unfolding any
  any_of_All q [] h = refl
  any_of_All q (x ∷ xs) (k, h) = ground (arith, k, any_of_All q xs h)

  pub any-implied :
      (p q : A → Bool) (xs : List A)
      → ((x : A) → p x ≡ true → q x ≡ true)
      → any p xs ≡ true
      → any q xs ≡ true
  unfolding any
  any-implied p q [] h e = e
  any-implied p q (x ∷ xs) h e = ground (arith, h x, any-implied p q xs h)

  pub find-any :
      (p q : A → Bool) (xs : List A) {x : A}
      → find p xs ≡ some x
      → q x ≡ true
      → (p x ≡ true) × (any q xs ≡ true)
  unfolding find any
  find-any p q [] e k = absurd cc
  find-any p q (y ∷ ys) {x} e k = elim (Bool-cases (p y)) [
    | inl u ↦
        let same : y ≡ x = ground (arith, e, u) in rw (← same) (u, ground (arith, k, ap q same))
    | inr u ↦
        let (h, t) = find-any p q ys {x = x} (ground (arith, e, u)) k in (h, ground (arith, t))
  ]

  pub filter_by-unseen :
      (q : A → Bool) (xs : List A) → All (λ x. q x ≡ false) xs → filter_by q xs ≡ []
  unfolding filter_by
  filter_by-unseen q [] h = refl
  filter_by-unseen q (x ∷ xs) (k, h) = ground (arith, k, filter_by-unseen q xs h)

  pub filter_by_whole :
      (q : A → Bool) (xs : List A) → All (λ x. q x ≡ true) xs → filter_by q xs ≡ xs
  unfolding filter_by
  filter_by_whole q [] h = refl
  filter_by_whole q (x ∷ xs) (k, h) = ground (arith, k, filter_by_whole q xs h)

  pub filter_by-append :
      (q : A → Bool) (xs ys : List A) → filter_by q (xs ++ ys) ≡ filter_by q xs ++ filter_by q ys
  unfolding filter_by
  filter_by-append q [] ys = refl
  filter_by-append q (x ∷ xs) ys = ground (arith, filter_by-append q xs ys)

  pub filter_by-filter_by-none :
      (q : A → Bool) (xs : List A) → filter_by q (filter_by (λ x. not (q x)) xs) ≡ []
  unfolding filter_by
  filter_by-filter_by-none q [] = refl
  filter_by-filter_by-none q (x ∷ xs) = ground (arith, filter_by-filter_by-none q xs)

  module _ (p q : A → Bool) where
    count_by-implied-le :
        (xs : List A) → All (λ x. p x ≡ true → q x ≡ true) xs → count_by p xs ≤ count_by q xs
    unfolding count_by
    count_by-implied-le [] h = omega arith
    count_by-implied-le (x ∷ xs) (k, h) = ground (arith, k, count_by-implied-le xs h)

    -- Of two tests that count the same, one of which implies the other, each implies the other.
    pub count_by-squeeze :
        (xs : List A)
        → All (λ x. p x ≡ true → q x ≡ true) xs
        → count_by p xs ≡ count_by q xs
        → All (λ x. q x ≡ true → p x ≡ true) xs
    unfolding count_by
    count_by-squeeze [] h e = tt
    count_by-squeeze (x ∷ xs) (k, h) e = (
      λ u. ground (arith, u, k, e, count_by-implied-le xs h),
      count_by-squeeze xs h (ground (arith, k, e, count_by-implied-le xs h)),
    )

module _ {ℓ κ} {A : Type ℓ} (P : A → Type κ) where
  pub any_witness :
      (q : A → Bool) (xs : List A) → any q xs ≡ true → All P xs → (x : A) × (q x ≡ true) × P x
  unfolding any
  any_witness q [] e h = absurd cc
  any_witness q (x ∷ xs) e (k, h) = elim (Bool-cases (q x)) [
    | inl u ↦ (x, u, k)
    | inr u ↦ any_witness q xs (ground (arith, e, u)) h
  ]

  pub find-All : (p : A → Bool) (xs : List A) {x : A} → find p xs ≡ some x → All P xs → P x
  unfolding find
  find-All p [] e h = absurd cc
  find-All p (y ∷ ys) {x} e (k, h) = elim (Bool-cases (p y)) [
    | inl u ↦ let same : y ≡ x = ground (arith, e, u) in subst P same k
    | inr u ↦ find-All p ys {x = x} (ground (arith, e, u)) h
  ]
