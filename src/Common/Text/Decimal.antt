-- ===== src/Common/Text/Decimal.antt =====
-- Printing a number in decimal and reading it back; texts of digits.
use Prim.Native.Nat.{ℕ, zero, suc, ◌+◌, ◌/◌, ◌%◌, ◌<◌}
use mathlib.Core.Path.{◌≡◌, refl, ◌∙◌}
use mathlib.Core.Bool.{Bool, true, false, not}
use mathlib.Core.Option.{none, some}
use mathlib.Core.List.{[], ◌∷◌, ◌++◌}
use mathlib.Core.Logic.{inl, inr}
use native.Mathlib.Omega.{arith}
use rs8kvn_bot.Common.Tests.{ltb, leb, ◌==◌, if◌then◌else◌, Bool-cases, ==_refl}
use rs8kvn_bot.Common.Lists.{all_of}
use rs8kvn_bot.Common.Int.{pos}
use rs8kvn_bot.Common.Text.{
  Text, is_digit, trim_right, trim_left, split, parse_digits, parse_int, print_digits, decimal,
  max_int64,
}

-- Reading what was printed continues behind it, from the number.
pub parse_digits-print_digits :
    (fuel n : ℕ) (rest : Text)
    → n < fuel
    → parse_digits 0 (print_digits fuel n rest) ≡ parse_digits n rest
unfolding print_digits
parse_digits-print_digits zero n rest h = absurd (omega arith)
parse_digits-print_digits (suc fuel) n rest h = elim (Bool-cases (ltb n 10)) [
  | inl small ↦ rw small (unfold parse_digits in ground arith)
  | inr large ↦ rw large (
      parse_digits-print_digits fuel (n / 10) ((b'0' + n % 10) ∷ rest) (ground arith)
      ∙ (unfold parse_digits in ground arith))
]

pub print_digits-append :
    (fuel n : ℕ) (s t : Text) → print_digits fuel n (s ++ t) ≡ print_digits fuel n s ++ t
unfolding print_digits
print_digits-append zero n s t = refl
print_digits-append (suc fuel) n s t =
    ground (arith, print_digits-append fuel (n / 10) ((b'0' + n % 10) ∷ s) t)

pub all_of-print_digits :
    (fuel n : ℕ) (s : Text)
    → all_of is_digit s ≡ true
    → all_of is_digit (print_digits fuel n s) ≡ true
unfolding print_digits
all_of-print_digits zero n s h = h
all_of-print_digits (suc fuel) n s h =
    ground (arith, all_of-print_digits fuel (n / 10) ((b'0' + n % 10) ∷ s))

print_digits_cons :
    (fuel n c : ℕ) (s : Text) → (d : ℕ) × (t : Text) × (print_digits fuel n (c ∷ s) ≡ d ∷ t)
unfolding print_digits
print_digits_cons zero n c s = (c, s, refl)
print_digits_cons (suc fuel) n c s = elim (Bool-cases (ltb n 10)) [
  | inl small ↦ (b'0' + n, c ∷ s, rw small refl)
  | inr large ↦ rw large (print_digits_cons fuel (n / 10) (b'0' + n % 10) (c ∷ s))
]

-- A number prints to at least one digit.
pub decimal_cons : (n : ℕ) → (d : ℕ) × (t : Text) × (decimal n ≡ d ∷ t)
unfolding print_digits
decimal_cons n = elim (Bool-cases (ltb n 10)) [
  | inl small ↦ (b'0' + n, [], rw small refl)
  | inr large ↦ rw large (print_digits_cons n (n / 10) (b'0' + n % 10) [])
]

pub parse_digits-decimal : (n : ℕ) → parse_digits 0 (decimal n) ≡ some n
parse_digits-decimal n =
    parse_digits-print_digits (suc n) n [] (omega arith) ∙ unfold parse_digits in refl

pub all_of-decimal : (n : ℕ) → all_of is_digit (decimal n) ≡ true
all_of-decimal n = all_of-print_digits (suc n) n [] refl

-- A text of digits is read as its number, if that is in range.
pub parse_int-digits :
    (c : ℕ) (s : Text) (n : ℕ)
    → is_digit c ≡ true
    → parse_digits 0 (c ∷ s) ≡ some n
    → parse_int (c ∷ s) ≡ (if leb n max_int64 then some (pos n) else none)
unfolding parse_int
parse_int-digits c s n h e = ground arith

pub trim_left-none : (p : ℕ → Bool) (c : ℕ) (s : Text) → p c ≡ false → trim_left p (c ∷ s) ≡ c ∷ s
unfolding trim_left
trim_left-none p c s h = rw h refl

pub trim_right-none :
    (p : ℕ → Bool) (s : Text) → all_of (λ c. not (p c)) s ≡ true → trim_right p s ≡ s
unfolding trim_right
trim_right-none p [] h = refl
trim_right-none p (c ∷ s) h = ground (arith, trim_right-none p s)

-- No separator, one part.
pub split-none : (sep : ℕ) (s : Text) → all_of (λ c. not (c == sep)) s ≡ true → split sep s ≡ s ∷ []
unfolding split
split-none sep [] h = refl
split-none sep (c ∷ s) h = ground (arith, split-none sep s)

pub split-append :
    (sep : ℕ) (s t : Text)
    → all_of (λ c. not (c == sep)) s ≡ true
    → split sep (s ++ sep ∷ t) ≡ s ∷ split sep t
unfolding split
split-append sep [] t h = ground (arith, ==_refl sep)
split-append sep (c ∷ s) t h = ground (arith, split-append sep s t)
