-- ===== src/Strings/Trimming.antt =====
-- Trimming and replacing.
use mathlib.Core.List.{reverse}
use acemcp_relay.Prelude.{
  ℕ, zero, suc, ◌≡◌, refl, false, [], ◌∷◌, nat_eq, Text, ◌==◌, arith, All, All-reverse, All-drop,
  length, drop,
}
use acemcp_relay.Strings.{trim_space, strip, space_len, last_space_len, replace_byte}
use acemcp_relay.Strings.Splitting.{Lacks}

module _ (P : ℕ → Type 0) where
  strip-All : (n : ℕ) (width : Text → ℕ) (s : Text) → All P s → All P (strip n width s)
  unfolding strip
  strip-All zero width s h = h
  strip-All (suc n) width s h =
      ground (arith, strip-All n width (drop (width s) s) (All-drop P (width s) s h))

  -- Trimming keeps what holds of every byte.
  pub trim_space-All : (s : Text) → All P s → All P (trim_space s)
  unfolding trim_space
  trim_space-All s h =
      let t = strip (length s) space_len s in
      All-reverse P _ (
        strip-All (length t) last_space_len (reverse t)
          (All-reverse P t (strip-All (length s) space_len s h)))

pub replace_byte-Lacks :
    (from to : ℕ) (s : Text) → (to == from) ≡ false → Lacks from (replace_byte from to s)
unfolding replace_byte
replace_byte-Lacks from to [] h = tt
replace_byte-Lacks from to (a ∷ s) h = (ground arith, replace_byte-Lacks from to s h)

pub replace_byte_of_Lacks : (from to : ℕ) (s : Text) → Lacks from s → replace_byte from to s ≡ s
unfolding replace_byte
replace_byte_of_Lacks from to [] h = refl
replace_byte_of_Lacks from to (a ∷ s) (p, h) = ground (arith, replace_byte_of_Lacks from to s h)
