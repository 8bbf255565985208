-- ===== src/Text/Decimal.antt =====
-- Decimal numerals: what a template literal or a Redis counter writes, and what `parseInt(s, 10)`
-- reads back.
use skill_up.Base.{
  ℕ, zero, suc, ◌+◌, ◌-◌, ◌*◌, ◌/◌, ◌%◌, ◌<◌, ◌≡◌, ◌∙◌, Bool, true, false, Option, none, some, [],
  ◌∷◌, ◌++◌, append_assoc, append-nil, arith, leb, ltb, if◌then◌else◌, ◌==◌, Bool-cases, inl, inr,
  All, All-append,
}
use skill_up.Text.{Text, is_digit, is_space, trim_start}

-- `fuel` bounds the number of digits; `print` gives enough.
print_from : ℕ → ℕ → Text
print_from zero n = []
print_from (suc fuel) n =
    let front = print_from fuel (n / 10) in
    if ltb n 10 then (48 + n) ∷ [] else front ++ (48 + n % 10) ∷ []

unfoldable pub print : ℕ → Text
unfolding print_from
print n = print_from (suc n) n

-- The digits at the front, on top of `acc`, and what follows them.
unfoldable pub read_digits : ℕ → Text → ℕ × Text
read_digits acc [] = (acc, [])
read_digits acc (c ∷ s) =
    let rest = read_digits (acc * 10 + (c - 48)) s in if is_digit c then rest else (acc, c ∷ s)

-- The number at the front of an unsigned text; `none` is NaN.
unfoldable pub parse_digits : Text → Option ℕ
unfolding read_digits
parse_digits [] = none
parse_digits (c ∷ s) = if is_digit c then some (read_digits 0 (c ∷ s)).0 else none

abbrev drop_plus : Text → Text
drop_plus [] = []
drop_plus (c ∷ s) = if c == b'+' then s else c ∷ s

-- `parseInt(s, 10)`, compared by `>=` with positive bounds only: NaN and a negative number, which
-- both fail such a test, are `none`.
unfoldable pub parse_int : Text → Option ℕ
unfolding parse_digits trim_start
parse_int s = parse_digits (drop_plus (trim_start s))

-- `parseInt(s, 10) >= bound`
abbrev pub at_least : Option ℕ → ℕ → Bool
at_least none bound = false
at_least (some n) bound = leb bound n

read_digits-print_from :
    (fuel n : ℕ) (rest : Text)
    → n < fuel
    → read_digits 0 (print_from fuel n ++ rest) ≡ read_digits n rest
unfolding print_from read_digits
read_digits-print_from zero n rest h = elim h [ ]
read_digits-print_from (suc fuel) n rest h = elim (Bool-cases (ltb n 10)) [
  | inl small ↦ rw small (ground arith)
  | inr large ↦
      rw (large, append_assoc)
        (read_digits-print_from fuel (n / 10) ((48 + n % 10) ∷ rest) (ground arith) ∙ ground arith)
]

-- Reading what was printed gives the number, and the reader stands behind it.
pub read_digits-print : (n : ℕ) (rest : Text) → read_digits 0 (print n ++ rest) ≡ read_digits n rest
unfolding print
read_digits-print n rest = read_digits-print_from (suc n) n rest (omega arith)

-- The first code unit of a numeral, and the rest of it.
print_from-cons :
    (fuel n : ℕ)
    → n < fuel
    → (c : ℕ) × (s : Text) × (print_from fuel n ≡ c ∷ s) × (is_digit c ≡ true)
unfolding print_from
print_from-cons zero n h = elim h [ ]
print_from-cons (suc fuel) n h = elim (Bool-cases (ltb n 10)) [
  | inl small ↦ (48 + n, [], rw small, ground arith)
  | inr large ↦
      let (c, s, e, d) = print_from-cons fuel (n / 10) (ground arith) in
      (c, s ++ (48 + n % 10) ∷ [], rw (large, e), d)
]

pub print-cons : (n : ℕ) → (c : ℕ) × (s : Text) × (print n ≡ c ∷ s) × (is_digit c ≡ true)
unfolding print
print-cons n = print_from-cons (suc n) n (omega arith)

All-print_from : (fuel n : ℕ) → n < fuel → All (λ c. is_digit c ≡ true) (print_from fuel n)
unfolding print_from
All-print_from zero n h = elim h [ ]
All-print_from (suc fuel) n h = elim (Bool-cases (ltb n 10)) [
  | inl small ↦ rw small (ground arith, tt)
  | inr large ↦ rw large (
      All-append (λ c. is_digit c ≡ true) (print_from fuel (n / 10)) _
        (All-print_from fuel (n / 10) (ground arith)) (ground arith, tt))
]

pub All-print : (n : ℕ) → All (λ c. is_digit c ≡ true) (print n)
unfolding print
All-print n = All-print_from (suc n) n (omega arith)

pub is_space_of_is_digit : (c : ℕ) → is_digit c ≡ true → is_space c ≡ false
unfolding is_space
is_space_of_is_digit c h = ground arith

parse_int_digit :
    (n c : ℕ) (s : Text)
    → is_digit c ≡ true
    → read_digits 0 (c ∷ s) ≡ (n, [])
    → parse_int (c ∷ s) ≡ some n
unfolding parse_int
parse_int_digit n c s d back = ground (arith, is_space_of_is_digit c d)

-- A number that is written in decimal is read back by `parseInt` as the same number.
pub parse_int-print : (n : ℕ) → parse_int (print n) ≡ some n
unfolding read_digits
parse_int-print n =
    let (c, s, e, d) = print-cons n in
    let back : read_digits 0 (c ∷ s) ≡ (n, []) = rw (append-nil, e) at (read_digits-print n []) in
    rw e (parse_int_digit n c s d back)
