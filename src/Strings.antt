-- ===== src/Strings.antt =====
-- What the sources use of Go's `strings` package, over the bytes of a string.
pub mod Splitting
pub mod Trimming
pub mod Decimal
pub mod Truncation
use mathlib.Core.List.{reverse}
use acemcp_relay.Prelude.{
  ℕ, zero, suc, Bool, true, false, ◌&&◌, ◌||◌, List, [], ◌∷◌, ◌++◌, nat_eq, Text, starts_with, ◌==◌,
  leb, if◌then◌else◌, length, any, drop,
}

-- The white space characters of more than one byte but U+2000 to U+200A, U+2028, U+2029, U+202F.
abbrev two_byte_spaces : List Text
two_byte_spaces = (0xc2 ∷ 0x85 ∷ []) ∷ (0xc2 ∷ 0xa0 ∷ []) ∷ []

abbrev three_byte_spaces : List Text
three_byte_spaces =
    (0xe1 ∷ 0x9a ∷ 0x80 ∷ []) ∷ (0xe2 ∷ 0x81 ∷ 0x9f ∷ []) ∷ (0xe3 ∷ 0x80 ∷ 0x80 ∷ []) ∷ []

abbrev is_general : ℕ → Bool
is_general c = leb 0x80 c && leb c 0x8a || c == 0xa8 || c == 0xa9 || c == 0xaf

abbrev is_ascii_space : ℕ → Bool
is_ascii_space a = a == 0x20 || leb 9 a && leb a 13

-- The bytes of the white space character that a string begins with: 0 where it begins with none.
space_len : Text → ℕ
unfolding starts_with any
space_len [] = 0
space_len (a ∷ []) = if is_ascii_space a then 1 else 0
space_len (a ∷ b ∷ []) =
    if is_ascii_space a then 1 else if any (starts_with (a ∷ b ∷ [])) two_byte_spaces then 2 else 0
space_len (a ∷ b ∷ c ∷ s) =
    if is_ascii_space a
    then 1
    else if any (starts_with (a ∷ b ∷ [])) two_byte_spaces
    then 2
    else if any (starts_with (a ∷ b ∷ c ∷ [])) three_byte_spaces
        || a == 0xe2 && b == 0x80 && is_general c
    then 3
    else 0

-- The same of the character that a string ends in; the argument is the string reversed.
last_space_len : Text → ℕ
unfolding space_len
last_space_len [] = 0
last_space_len (a ∷ []) = space_len (a ∷ [])
last_space_len (a ∷ b ∷ []) =
    if is_ascii_space a then 1 else if space_len (b ∷ a ∷ []) == 2 then 2 else 0
last_space_len (a ∷ b ∷ c ∷ s) =
    if is_ascii_space a
    then 1
    else if space_len (b ∷ a ∷ []) == 2
    then 2
    else if space_len (c ∷ b ∷ a ∷ []) == 3
    then 3
    else 0

-- Drops characters as long as the string begins with one; a string has at most its length of them.
strip : ℕ → (Text → ℕ) → Text → Text
strip zero width s = s
strip (suc n) width s =
    let rest = strip n width (drop (width s) s) in if width s == 0 then s else rest

-- strings.TrimSpace
unfoldable pub trim_space : Text → Text
unfolding space_len last_space_len strip
trim_space s =
    let t = strip (length s) space_len s in reverse (strip (length t) last_space_len (reverse t))

-- strings.TrimPrefix, for a prefix of one byte
unfoldable pub trim_prefix : ℕ → Text → Text
trim_prefix c [] = []
trim_prefix c (a ∷ s) = if a == c then s else a ∷ s

-- strings.ReplaceAll, one byte by another
unfoldable pub replace_byte : ℕ → ℕ → Text → Text
replace_byte from to [] = []
replace_byte from to (a ∷ s) = (if a == from then to else a) ∷ replace_byte from to s

unfoldable pub push_head : ℕ → List Text → List Text
push_head a [] = (a ∷ []) ∷ []
push_head a (x ∷ xs) = (a ∷ x) ∷ xs

-- strings.Split at one byte
unfoldable pub split : ℕ → Text → List Text
unfolding push_head
split c [] = [] ∷ []
split c (a ∷ s) = let rest = split c s in if a == c then [] ∷ rest else push_head a rest

-- strings.Join with one byte
unfoldable pub join : ℕ → List Text → Text
join c [] = []
join c (x ∷ []) = x
join c (x ∷ y ∷ xs) = x ++ (c ∷ join c (y ∷ xs))

-- strings.HasSuffix
unfoldable pub ends_with : Text → Text → Bool
unfolding starts_with
ends_with s suffix = starts_with (reverse s) (reverse suffix)

-- strings.Contains
unfoldable pub contains : Text → Text → Bool
contains [] part = starts_with [] part
contains (a ∷ s) part = starts_with (a ∷ s) part || contains s part
