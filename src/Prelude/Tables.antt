-- ===== src/Prelude/Tables.antt =====
-- The rows of a table as a list, with the statements that update and read them.
use Prim.Native.Nat.{ℕ, zero, suc, ◌≤◌}
use mathlib.Core.Path.{◌≡◌, refl, ap}
use mathlib.Core.Logic.{inl, inr}
use mathlib.Core.Bool.{Bool, true, false}
use mathlib.Core.Option.{Option, none, some}
use mathlib.Core.List.{List, [], ◌∷◌, ◌++◌}
use native.Mathlib.Omega.{arith}
use acemcp_relay.Prelude.Tests.{if◌then◌else◌, Bool-cases}
use acemcp_relay.Prelude.Lists.{length, filter_by, count_by, any, All}

module _ {ℓ} {A : Type ℓ} where
  -- UPDATE … WHERE …
  unfoldable pub update_where : (A → Bool) → (A → A) → List A → List A
  update_where p f [] = []
  update_where p f (j ∷ rows) = (if p j then f j else j) ∷ update_where p f rows

  -- The same for the first rows only, as many as LIMIT says.
  unfoldable pub update_first : ℕ → (A → Bool) → (A → A) → List A → List A
  update_first zero p f rows = rows
  update_first (suc n) p f [] = []
  update_first (suc n) p f (j ∷ rows) =
      let changed = f j ∷ update_first n p f rows in
      let kept = j ∷ update_first (suc n) p f rows in if p j then changed else kept

  unfoldable pub find : (A → Bool) → List A → Option A
  find p [] = none
  find p (j ∷ rows) = let rest = find p rows in if p j then some j else rest

  abbrev pub is_some : Option A → Bool
  is_some none = false
  is_some (some _) = true

  pub length-update_where :
      (p : A → Bool) (f : A → A) (rows : List A) → length (update_where p f rows) ≡ length rows
  unfolding update_where
  length-update_where p f [] = refl
  length-update_where p f (j ∷ rows) = ap suc (length-update_where p f rows)

  pub count_by_absent : (p : A → Bool) (rows : List A) → find p rows ≡ none → count_by p rows ≡ 0
  unfolding find count_by
  count_by_absent p [] h = refl
  count_by_absent p (j ∷ rows) h = ground (arith, count_by_absent p rows)

  pub find-append :
      (p : A → Bool) (j : A) (rows : List A)
      → p j ≡ true
      → find p rows ≡ none
      → find p (rows ++ j ∷ []) ≡ some j
  unfolding find
  find-append p j [] e h = rw e refl
  find-append p j (k ∷ rows) e h = elim (Bool-cases (p k)) [
    | inl u ↦ ground (arith, u)
    | inr u ↦ rw u (find-append p j rows e (ground (arith, u)))
  ]

  module _ (q p : A → Bool) (f : A → A) where
    pub count_by-update_where-le :
        ((j : A) → p j ≡ true → q (f j) ≡ true → q j ≡ true)
        → (rows : List A) → count_by q (update_where p f rows) ≤ count_by q rows
    unfolding update_where count_by
    count_by-update_where-le h [] = omega arith
    count_by-update_where-le h (j ∷ rows) = ground (arith, h j, count_by-update_where-le h rows)

    -- An update that a test does not see.
    pub count_by-update_where :
        ((j : A) → p j ≡ true → q (f j) ≡ q j)
        → (rows : List A) → count_by q (update_where p f rows) ≡ count_by q rows
    unfolding update_where count_by
    count_by-update_where h [] = refl
    count_by-update_where h (j ∷ rows) = ground (arith, h j, count_by-update_where h rows)

    pub any-update_where :
        ((j : A) → p j ≡ true → q (f j) ≡ q j)
        → (rows : List A) → any q (update_where p f rows) ≡ any q rows
    unfolding update_where any
    any-update_where h [] = refl
    any-update_where h (j ∷ rows) = ground (arith, h j, any-update_where h rows)

    pub count_by-update_first-le :
        ((j : A) → p j ≡ true → q (f j) ≡ true → q j ≡ true)
        → (n : ℕ) (rows : List A) → count_by q (update_first n p f rows) ≤ count_by q rows
    unfolding update_first count_by
    count_by-update_first-le h zero rows = omega arith
    count_by-update_first-le h (suc n) [] = omega arith
    count_by-update_first-le h (suc n) (j ∷ rows) =
        ground
          (arith, h j, count_by-update_first-le h n rows, count_by-update_first-le h (suc n) rows)

  pub find-update_where :
      (p q : A → Bool) (f : A → A)
      → ((j : A) → p j ≡ true → q (f j) ≡ true)
      → (rows : List A) → is_some (find p rows) ≡ true
      → is_some (find q (update_where p f rows)) ≡ true
  unfolding find update_where
  find-update_where p q f h [] e = e
  find-update_where p q f h (j ∷ rows) e = elim (Bool-cases (p j)) [
    | inl u ↦ rw u (rw (h j u) refl)
    | inr u ↦ ground (arith, u, find-update_where p q f h rows)
  ]

module _ {ℓ κ} {A : Type ℓ} {P : A → Type κ} (p : A → Bool) (f : A → A) where
  pub All-update_where :
      ((j : A) → p j ≡ true → P j → P (f j))
      → (rows : List A) → All P rows
      → All P (update_where p f rows)
  unfolding update_where
  All-update_where h [] k = tt
  All-update_where h (j ∷ rows) (k, ks) = elim (Bool-cases (p j)) [
    | inl e ↦ rw e (h j e k, All-update_where h rows ks)
    | inr e ↦ rw e (k, All-update_where h rows ks)
  ]

  pub All-update_first :
      ((j : A) → p j ≡ true → P j → P (f j))
      → (n : ℕ) (rows : List A) → All P rows
      → All P (update_first n p f rows)
  unfolding update_first
  All-update_first h zero rows k = k
  All-update_first h (suc n) [] k = tt
  All-update_first h (suc n) (j ∷ rows) (k, ks) = elim (Bool-cases (p j)) [
    | inl e ↦ rw e (h j e k, All-update_first h n rows ks)
    | inr e ↦ rw e (k, All-update_first h (suc n) rows ks)
  ]

module _ {ℓ κ κ'} {A : Type ℓ} (P : A → Type κ) (Q : A → Type κ') where
  pub All-map : ((x : A) → P x → Q x) → (xs : List A) → All P xs → All Q xs
  All-map f [] h = tt
  All-map f (x ∷ xs) (k, h) = (f x k, All-map f xs h)

  -- Filtering, where what passes has shown more.
  pub All-filter_with :
      (p : A → Bool)
      → ((x : A) → p x ≡ true → P x → Q x)
      → (xs : List A) → All P xs
      → All Q (filter_by p xs)
  unfolding filter_by
  All-filter_with p f [] h = tt
  All-filter_with p f (x ∷ xs) (k, h) = elim (Bool-cases (p x)) [
    | inl e ↦ rw e (f x e k, All-filter_with p f xs h)
    | inr e ↦ rw e (All-filter_with p f xs h)
  ]

  pub All-update_with :
      (p : A → Bool) (f : A → A)
      → ((x : A) → p x ≡ true → P x → Q (f x))
      → ((x : A) → p x ≡ false → P x → Q x)
      → (xs : List A) → All P xs
      → All Q (update_where p f xs)
  unfolding update_where
  All-update_with p f h k [] v = tt
  All-update_with p f h k (x ∷ xs) (u, v) = elim (Bool-cases (p x)) [
    | inl e ↦ rw e (h x e u, All-update_with p f h k xs v)
    | inr e ↦ rw e (k x e u, All-update_with p f h k xs v)
  ]

  pub All-zip : (xs : List A) → All P xs → All Q xs → All (λ x. P x × Q x) xs
  All-zip [] h k = tt
  All-zip (x ∷ xs) (a, h) (b, k) = ((a, b), All-zip xs h k)

module _ {ℓ κ} {A : Type ℓ} (P : A → Type κ) where
  pub All-of : ((x : A) → P x) → (xs : List A) → All P xs
  All-of f [] = tt
  All-of f (x ∷ xs) = (f x, All-of f xs)
