-- ===== src/Strings/Truncation.antt =====
-- main.go: `truncateUTF8`.
use acemcp_relay.Prelude.{
  ℕ, zero, suc, Bool, Bool, true, not, ◌&&◌, [], ◌∷◌, Text, nat_eq, leb, ltb, if◌then◌else◌, length,
  take, drop,
}

-- `utf8.RuneStart`, of the byte at an index.
unfoldable pub rune_starts : Text → Bool
rune_starts [] = true
rune_starts (a ∷ s) = not (leb 0x80 a && ltb a 0xc0)

-- The loop of `truncateUTF8`, which takes at most utf8.UTFMax steps back.
unfoldable pub cut_back : ℕ → ℕ → Text → ℕ
cut_back zero cut s = cut
cut_back (suc n) zero s = zero
cut_back (suc n) (suc cut) s =
    let rest = cut_back n cut s in if rune_starts (drop (suc cut) s) then suc cut else rest

abbrev pub utf_max : ℕ
utf_max = 4

-- `truncateUTF8`
unfoldable pub truncate_utf8 : Text → ℕ → Text
truncate_utf8 s max_bytes =
    let cut = cut_back utf_max max_bytes s in if leb (length s) max_bytes then s else take cut s
