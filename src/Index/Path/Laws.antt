-- ===== src/Index/Path/Laws.antt =====
-- index_jobs.go, `normalizeIndexPath`: what a normalised path looks like, and when normalising it
-- again changes nothing.
use mathlib.Core.List.{reverse, reverse-cons, append_assoc, append-nil, tail}
use acemcp_relay.Prelude.{
  ◌≡◌, ◌≢◌, refl, ap, sym, ◌∙◌, ◌⊎◌, inl, inr, false, List, [], ◌∷◌, ◌++◌, nat_eq, text_eq, Text,
  text_beq, ◌==◌, arith, All, All-append, All-reverse, eq_iff,
}
use acemcp_relay.Strings.{trim_space, trim_prefix, replace_byte, split, join, push_head}
use acemcp_relay.Strings.Splitting.{Lacks, split-Lacks, split-All, split-join}
use acemcp_relay.Strings.Trimming.{trim_space-All, replace_byte-Lacks, replace_byte_of_Lacks}
use acemcp_relay.Index.Path.{resolve, resolve_all, normalize_index_path}

-- An element that names a file or a folder below the one before it.
abbrev pub IsPlain : Text → Type 0
IsPlain part = (part ≢ []) × (part ≢ b'.' ∷ []) × (part ≢ b'.' ∷ b'.' ∷ [])

-- An element that no file system of the clients reads as more than one.
abbrev pub IsSafe : Text → Type 0
IsSafe part = IsPlain part × Lacks b'/' part × Lacks 0x5c part

All-tail : (P : Text → Type 0) (xs : List Text) → All P xs → All P (tail xs)
All-tail P [] h = h
All-tail P (x ∷ xs) (_, h) = h

resolve-IsSafe :
    (stack : List Text) (part : Text)
    → All IsSafe stack
    → Lacks b'/' part
    → Lacks 0x5c part
    → All IsSafe (resolve stack part)
unfolding resolve
resolve-IsSafe stack part h slash back = ground (
  arith,
  eq_iff part [],
  eq_iff part (b'.' ∷ []),
  eq_iff part (b'.' ∷ b'.' ∷ []),
  All-tail IsSafe stack h,
)

resolve_all-IsSafe :
    (stack parts : List Text)
    → All IsSafe stack
    → All (Lacks b'/') parts
    → All (Lacks 0x5c) parts
    → All IsSafe (resolve_all stack parts)
unfolding resolve_all
resolve_all-IsSafe stack [] h _ _ = All-reverse IsSafe stack h
resolve_all-IsSafe stack (part ∷ parts) h (s, ss) (b, bs) =
    resolve_all-IsSafe (resolve stack part) parts (resolve-IsSafe stack part h s b) ss bs

-- What the result is made of, before the last test.
resolved : Text → List Text
resolved value = resolve_all [] (split b'/' (trim_space (replace_byte 0x5c b'/' value)))

resolved-IsSafe : (value : Text) → All IsSafe (resolved value)
unfolding resolved
resolved-IsSafe value =
    let clean =
      trim_space-All (λ a. (a == 0x5c) ≡ false) _ (replace_byte-Lacks 0x5c b'/' value refl) in
    resolve_all-IsSafe [] _ tt (split-Lacks b'/' _)
      (split-All (λ a. (a == 0x5c) ≡ false) b'/' _ clean)

All-slash : (xs : List Text) → All IsSafe xs → All (Lacks b'/') xs
All-slash [] h = tt
All-slash (x ∷ xs) ((_, s, _), h) = (s, All-slash xs h)

join-ne-dot : (x : Text) (xs : List Text) → All IsSafe (x ∷ xs) → join b'/' (x ∷ xs) ≢ b'.' ∷ []
unfolding split push_head
join-ne-dot x xs h e =
    let parts = split-join b'/' x xs (All-slash (x ∷ xs) h) in
    let one = ap (split b'/') e in h.0.0.1 (cc (parts, one))

-- A join of safe elements is not a dot, and splits into them again.
join_safe :
    (x : Text) (xs : List Text)
    → All IsSafe (x ∷ xs)
    → ((join b'/' (x ∷ xs) == b'.' ∷ []) ≡ false) × (split b'/' (join b'/' (x ∷ xs)) ≡ x ∷ xs)
join_safe x xs h = (
  ground (arith, eq_iff (join b'/' (x ∷ xs)) (b'.' ∷ []), join-ne-dot x xs h),
  split-join b'/' x xs (All-slash (x ∷ xs) h),
)

normalize_of_resolved :
    (value : Text) (rs : List Text)
    → resolved value ≡ rs
    → All IsSafe rs
    → normalize_index_path value ≡ join b'/' rs
unfolding normalize_index_path resolved trim_prefix
normalize_of_resolved value [] e h = unfold join text_beq in ground arith
normalize_of_resolved value (x ∷ xs) e h = ground (arith, join_safe x xs h)

-- A normalised path is empty, or its elements between slashes are plain names that hold no slash
-- and no backslash: it cannot leave the repository.
pub normalize_index_path-IsSafe :
    (value : Text)
    → (normalize_index_path value ≡ []) ⊎ All IsSafe (split b'/' (normalize_index_path value))
normalize_index_path-IsSafe value = go (resolved value) refl (resolved-IsSafe value)
  where
    go :
        (rs : List Text)
        → resolved value ≡ rs
        → All IsSafe rs
        → (normalize_index_path value ≡ []) ⊎ All IsSafe (split b'/' (normalize_index_path value))
    go [] e h = inl (unfold join in normalize_of_resolved value [] e h)
    go (x ∷ xs) e h = inr (rw (normalize_of_resolved value (x ∷ xs) e h, (join_safe x xs h).1) h)

resolve_of_IsPlain :
    (stack : List Text) (part : Text) → IsPlain part → resolve stack part ≡ part ∷ stack
unfolding resolve
resolve_of_IsPlain stack part h =
    ground (arith, eq_iff part [], eq_iff part (b'.' ∷ []), eq_iff part (b'.' ∷ b'.' ∷ []))

resolve_all_of_IsSafe :
    (stack parts : List Text) → All IsSafe parts → resolve_all stack parts ≡ reverse stack ++ parts
unfolding resolve_all
resolve_all_of_IsSafe stack [] _ = sym (append-nil _)
resolve_all_of_IsSafe stack (part ∷ parts) (safe, h) =
    rw (resolve_of_IsPlain stack part safe.0)
      (resolve_all_of_IsSafe (part ∷ stack) parts h ∙ (simp (reverse-cons, append_assoc)))

Lacks-concat : (parts : List Text) → All (Lacks 0x5c) parts → Lacks 0x5c (join b'/' parts)
unfolding join
Lacks-concat [] h = tt
Lacks-concat (x ∷ []) (h, _) = h
Lacks-concat (x ∷ y ∷ xs) (h, hs) =
    All-append (λ a. (a == 0x5c) ≡ false) x _ h (refl, Lacks-concat (y ∷ xs) hs)

All-back : (xs : List Text) → All IsSafe xs → All (Lacks 0x5c) xs
All-back [] h = tt
All-back (x ∷ xs) ((_, _, b), h) = (b, All-back xs h)

resolved_of_trimmed :
    (rs : List Text)
    → All IsSafe rs
    → trim_space (join b'/' rs) ≡ join b'/' rs
    → resolved (join b'/' rs) ≡ rs
unfolding resolved text_beq
resolved_of_trimmed [] h e = unfold resolve_all resolve split join trim_space replace_byte in refl
resolved_of_trimmed (x ∷ xs) h e =
    rw
      (replace_byte_of_Lacks 0x5c b'/' (join b'/' (x ∷ xs))
        (Lacks-concat (x ∷ xs) (All-back (x ∷ xs) h)))
      (rw e (rw (join_safe x xs h).1 (resolve_all_of_IsSafe [] (x ∷ xs) h)))

-- Normalising a normalised path again changes nothing, if it neither begins nor ends with space.
pub normalize_index_path_idempotent :
    (value : Text)
    → trim_space (normalize_index_path value) ≡ normalize_index_path value
    → normalize_index_path (normalize_index_path value) ≡ normalize_index_path value
normalize_index_path_idempotent value e =
    let safe = resolved-IsSafe value in
    let first = normalize_of_resolved value (resolved value) refl safe in
    let trimmed = rw first at e in
    rw first (normalize_of_resolved _ (resolved value) (resolved_of_trimmed _ safe trimmed) safe)
