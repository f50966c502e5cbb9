-- ===== src/Strings/Decimal.antt =====
-- What the sources use of Go's `strconv` package: decimal numbers.
use native.Mathlib.Nat.{pow-suc}
use acemcp_relay.Prelude.{
  ℕ, zero, suc, ◌+◌, ◌-◌, ◌*◌, ◌/◌, ◌%◌, ◌^◌, ◌<◌, ◌≡◌, refl, Bool, true, false, ◌&&◌, [], ◌∷◌,
  Option, none, some, nat_eq, Text, ◌==◌, leb, ltb, if◌then◌else◌, arith, ap, ◌∙◌, Bool-cases, inl,
  inr, not, min,
}
use acemcp_relay.Strings.Splitting.{Lacks}
use acemcp_relay.Prelude.Int.{ℤ, pos, negsuc}

-- The digits of a number before those of `acc`; the fuel is the number of digits at most.
print_digits : ℕ → ℕ → Text → Text
print_digits zero n acc = acc
print_digits (suc fuel) n acc =
    let rest = print_digits fuel (n / 10) ((b'0' + n % 10) ∷ acc) in
    if ltb n 10 then (b'0' + n) ∷ acc else rest

-- 2^64 has twenty digits.
abbrev max_digits : ℕ
max_digits = 20

unfoldable pub print_nat : ℕ → Text
unfolding print_digits
print_nat n = print_digits max_digits n []

-- strconv.FormatInt in base ten, and strconv.Itoa
unfoldable pub format_int : ℤ → Text
unfolding print_nat
format_int (pos n) = print_nat n
format_int (negsuc n) = b'-' ∷ print_nat (suc n)

is_digit : ℕ → Bool
is_digit c = leb b'0' c && leb c b'9'

unfoldable pub parse_digits : ℕ → Text → Option ℕ
unfolding is_digit
parse_digits acc [] = some acc
parse_digits acc (c ∷ s) =
    let rest = parse_digits (acc * 10 + (c - b'0')) s in if is_digit c then rest else none

abbrev pub int64_bound : ℕ
int64_bound = 9223372036854775808

abbrev uint64_bound : ℕ
uint64_bound = 18446744073709551616

-- The loop of strconv.ParseUint at 64 bits behind strconv.Atoi, with its error dropped: zero where a
-- byte is not a digit, and the largest int as soon as the number is too large.
unfoldable pub atoi : ℕ → Text → ℕ
unfolding is_digit
atoi n [] = min n (int64_bound - 1)
atoi n (c ∷ s) =
    let n' = n * 10 + (c - b'0') in
    let rest = atoi n' s in
    if not (is_digit c) then 0 else if leb uint64_bound n' then int64_bound - 1 else rest

-- strconv.Atoi of a text without a minus sign, with its error dropped.
unfoldable pub lax_number : Text → ℕ
lax_number [] = 0
lax_number (a ∷ []) = atoi 0 (a ∷ [])
lax_number (a ∷ b ∷ s) = if a == b'+' then atoi 0 (b ∷ s) else atoi 0 (a ∷ b ∷ s)

non_negative : Option ℕ → Option ℤ
non_negative none = none
non_negative (some n) = if ltb n int64_bound then some (pos n) else none

negative : Option ℕ → Option ℤ
negative none = none
negative (some zero) = some (pos 0)
negative (some (suc n)) = if ltb n int64_bound then some (negsuc n) else none

parse_unsigned : (Option ℕ → Option ℤ) → Text → Option ℤ
parse_unsigned f [] = none
parse_unsigned f (c ∷ s) = f (parse_digits 0 (c ∷ s))

-- strconv.ParseInt in base ten at 64 bits, and strconv.Atoi
unfoldable pub parse_int : Text → Option ℤ
unfolding parse_unsigned non_negative negative parse_digits
parse_int [] = none
parse_int (c ∷ s) =
    if c == b'-'
    then parse_unsigned negative s
    else if c == b'+'
    then parse_unsigned non_negative s
    else parse_unsigned non_negative (c ∷ s)

tenth : (fuel n : ℕ) → n < 10 ^ suc fuel → n / 10 < 10 ^ fuel
tenth fuel n h = omega (arith, pow-suc 10 fuel)

parse_digit :
    (a d : ℕ) (acc : Text)
    → d < 10
    → parse_digits a ((b'0' + d) ∷ acc) ≡ parse_digits (a * 10 + d) acc
unfolding parse_digits
parse_digit a d acc h = ground (arith, ap (λ (n : ℕ). parse_digits n acc) (digit_value a d))
  where
    digit_value : (a d : ℕ) → a * 10 + (b'0' + d - b'0') ≡ a * 10 + d
    digit_value a d = omega arith

parse-print_digits :
    (fuel n : ℕ) (acc : Text)
    → n < 10 ^ fuel
    → parse_digits 0 (print_digits fuel n acc) ≡ parse_digits n acc
unfolding print_digits
parse-print_digits zero n acc h = ap (λ (m : ℕ). parse_digits m acc) (omega arith)
parse-print_digits (suc fuel) n acc h = elim (Bool-cases (ltb n 10)) [
  | inl e ↦
      rw e (parse_digit 0 n acc (ground arith) ∙ ap (λ (m : ℕ). parse_digits m acc) (omega arith))
  | inr e ↦ rw e (
      parse-print_digits fuel (n / 10) ((b'0' + n % 10) ∷ acc) (tenth fuel n h)
      ∙ parse_digit (n / 10) (n % 10) acc (omega arith)
      ∙ ap (λ (m : ℕ). parse_digits m acc) (omega arith))
]

-- A text that begins with a digit.
abbrev HasDigit : Text → Type 0
HasDigit [] = ⊥
HasDigit (c ∷ _) = is_digit c ≡ true

print_digits-HasDigit :
    (fuel n : ℕ) (acc : Text) → HasDigit acc → HasDigit (print_digits fuel n acc)
unfolding print_digits is_digit
print_digits-HasDigit zero n acc h = h
print_digits-HasDigit (suc fuel) n acc h = elim (Bool-cases (ltb n 10)) [
  | inl e ↦ rw e (ground arith)
  | inr e ↦ rw e (print_digits-HasDigit fuel (n / 10) ((b'0' + n % 10) ∷ acc) (ground arith))
]

print_nat-HasDigit : (n : ℕ) → HasDigit (print_nat n)
unfolding print_nat is_digit
print_nat-HasDigit n = elim (Bool-cases (ltb n 10)) [
  | inl e ↦ rw e (ground arith)
  | inr e ↦ rw e (print_digits-HasDigit 19 (n / 10) ((b'0' + n % 10) ∷ []) (ground arith))
]

parse-print_nat : (n : ℕ) → n < 10 ^ 20 → parse_digits 0 (print_nat n) ≡ some n
unfolding print_nat
parse-print_nat n h = parse-print_digits 20 n [] h ∙ (unfold parse_digits in refl)

parse_unsigned_digits :
    (f : Option ℕ → Option ℤ) (t : Text) → HasDigit t → parse_unsigned f t ≡ f (parse_digits 0 t)
unfolding parse_unsigned
parse_unsigned_digits f [] h = elim h [ ]
parse_unsigned_digits f (c ∷ s) h = refl

parse_int_digits : (t : Text) → HasDigit t → parse_int t ≡ non_negative (parse_digits 0 t)
unfolding parse_int is_digit
parse_int_digits [] h = elim h [ ]
parse_int_digits (c ∷ s) h = ground arith

-- The values of Go's int64.
abbrev pub IsInt64 : ℤ → Type 0
IsInt64 (pos n) = n < int64_bound
IsInt64 (negsuc n) = n < int64_bound

parse_int_minus : (t : Text) → parse_int (b'-' ∷ t) ≡ parse_unsigned negative t
unfolding parse_int
parse_int_minus t = refl

non_negative_small : (n : ℕ) → n < int64_bound → non_negative (some n) ≡ some (pos n)
unfolding non_negative
non_negative_small n h = ground arith

negative_small : (n : ℕ) → n < int64_bound → negative (some (suc n)) ≡ some (negsuc n)
unfolding negative
negative_small n h = ground arith

-- Printing a 64-bit integer and reading it back gives it again.
pub parse-format_int : (z : ℤ) → IsInt64 z → parse_int (format_int z) ≡ some z
unfolding format_int
parse-format_int (pos n) h =
    parse_int_digits (print_nat n) (print_nat-HasDigit n)
    ∙ ap non_negative (parse-print_nat n (omega arith))
    ∙ non_negative_small n h
parse-format_int (negsuc n) h =
    parse_int_minus (print_nat (suc n))
    ∙ parse_unsigned_digits negative (print_nat (suc n)) (print_nat-HasDigit (suc n))
    ∙ ap negative (parse-print_nat (suc n) (omega arith))
    ∙ negative_small n h

print_digits-Lacks :
    (c fuel n : ℕ) (acc : Text) → c < b'0' → Lacks c acc → Lacks c (print_digits fuel n acc)
unfolding print_digits
print_digits-Lacks c zero n acc h k = k
print_digits-Lacks c (suc fuel) n acc h k =
    ground (arith, print_digits-Lacks c fuel (n / 10) ((b'0' + n % 10) ∷ acc) h)

-- The bytes of a decimal number are digits and a minus sign.
pub format_int-Lacks : (c : ℕ) (z : ℤ) → c < b'0' → (b'-' == c) ≡ false → Lacks c (format_int z)
unfolding format_int print_nat
format_int-Lacks c (pos n) h k = print_digits-Lacks c max_digits n [] h tt
format_int-Lacks c (negsuc n) h k = (k, print_digits-Lacks c max_digits (suc n) [] h tt)

pub print_nat-Lacks : (c n : ℕ) → c < b'0' → Lacks c (print_nat n)
unfolding print_nat
print_nat-Lacks c n h = print_digits-Lacks c max_digits n [] h tt

atoi_digit :
    (a d : ℕ) (acc : Text)
    → d < 10
    → a * 10 + d < uint64_bound
    → atoi a ((b'0' + d) ∷ acc) ≡ atoi (a * 10 + d) acc
unfolding atoi
atoi_digit a d acc h k = ground (arith, h, k, ap (λ (n : ℕ). atoi n acc) (digit_value a d))
  where
    digit_value : (a d : ℕ) → a * 10 + (b'0' + d - b'0') ≡ a * 10 + d
    digit_value a d = omega arith

atoi-print_digits :
    (fuel n : ℕ) (acc : Text)
    → n < 10 ^ fuel
    → n < uint64_bound
    → atoi 0 (print_digits fuel n acc) ≡ atoi n acc
unfolding print_digits
atoi-print_digits zero n acc h k = ap (λ (m : ℕ). atoi m acc) (omega arith)
atoi-print_digits (suc fuel) n acc h k = elim (Bool-cases (ltb n 10)) [
  | inl e ↦ rw e (
      atoi_digit 0 n acc (ground arith) (omega (arith, k))
      ∙ ap (λ (m : ℕ). atoi m acc) (omega arith))
  | inr e ↦ rw e (
      atoi-print_digits fuel (n / 10) ((b'0' + n % 10) ∷ acc) (tenth fuel n h) (omega (arith, k))
      ∙ atoi_digit (n / 10) (n % 10) acc (omega arith) (omega (arith, k))
      ∙ ap (λ (m : ℕ). atoi m acc) (omega arith))
]

lax_number_digits : (t : Text) → HasDigit t → lax_number t ≡ atoi 0 t
unfolding lax_number is_digit
lax_number_digits [] h = elim h [ ]
lax_number_digits (a ∷ []) h = refl
lax_number_digits (a ∷ b ∷ s) h = ground (arith, h)

atoi_nil : (n : ℕ) → n < int64_bound → atoi n [] ≡ n
unfolding atoi
atoi_nil n h = omega (arith, h)

atoi-print_nat : (n : ℕ) → n < int64_bound → atoi 0 (print_nat n) ≡ atoi n []
unfolding print_nat
atoi-print_nat n h = atoi-print_digits 20 n [] (omega arith) (omega arith)

-- A printed int is read as itself.
pub lax_number-print_nat : (n : ℕ) → n < int64_bound → lax_number (print_nat n) ≡ n
lax_number-print_nat n h =
    lax_number_digits (print_nat n) (print_nat-HasDigit n) ∙ atoi-print_nat n h ∙ atoi_nil n h
