-- ===== src/Service/Platega/Amount.antt =====
-- ParseCallbackAmount reads what CreateTransaction sends, and never leaves int64.
use rs8kvn_bot.Common.{
  ℕ, ◌+◌, ◌*◌, ◌/◌, ◌%◌, ◌≤◌, ◌<◌, Bool, true, false, not, ◌||◌, some, List, [], ◌∷◌, ◌++◌, ◌≡◌,
  refl, sym, ap, ◌∙◌, arith, ◌==◌, if◌then◌else◌, any_of, all_of, all_of-append, all_of-imp,
  any_of-all_of,
}
use rs8kvn_bot.Common.Int.{ℤ, pos, negsuc, ◌+ℤ◌, ◌-ℤ◌, ◌≤ℤ◌}
use rs8kvn_bot.Common.Text.{
  Text, is_digit, is_space, starts_with, split, push_part, parse_int, parse_digits, max_int64,
  decimal, two_digits,
}
use rs8kvn_bot.Common.Text.Decimal.{
  decimal_cons, parse_digits-decimal, all_of-decimal, parse_int-digits, trim_left-none,
  trim_right-none, split-none, split-append,
}
use rs8kvn_bot.Service.Platega.{ok, amount_parts, parse_callback_amount, sum_cents, encode_amount}

abbrev pub is_amount_char : ℕ → Bool
is_amount_char c = is_digit c || c == b'.'

-- A text of digits, a point and digits has these two parts.
pub amount_parts_lem :
    (c : ℕ) (whole fraction : Text)
    → all_of is_digit (c ∷ whole) ≡ true
    → all_of is_digit fraction ≡ true
    → amount_parts ((c ∷ whole) ++ b'.' ∷ fraction) ≡ ok (c ∷ whole, fraction)
unfolding amount_parts
amount_parts_lem c whole fraction h k =
    let text : Text = (c ∷ whole) ++ b'.' ∷ fraction in
    let chars : all_of is_amount_char text ≡ true =
      all_of-append is_amount_char (c ∷ whole) (b'.' ∷ fraction)
        (all_of-imp is_digit is_amount_char (c ∷ whole) (λ d e. ground arith) h)
        (ground (arith, all_of-imp is_digit is_amount_char fraction (λ d e. ground arith) k)) in
    let no_space : all_of (λ d. not (is_space d)) text ≡ true =
      all_of-imp is_amount_char (λ d. not (is_space d)) text (λ d e. ground arith) chars in
    let no_exponent : any_of (λ d. d == b'e' || d == b'E') text ≡ false =
      any_of-all_of (λ d. d == b'e' || d == b'E') text
        (all_of-imp is_amount_char (λ d. not (d == b'e' || d == b'E')) text (λ d e. ground arith)
          chars) in
    let parts : split b'.' text ≡ (c ∷ whole) ∷ fraction ∷ [] =
      split-append b'.' (c ∷ whole) fraction
        (all_of-imp is_digit (λ d. not (d == b'.')) (c ∷ whole) (λ d e. ground arith) h)
      ∙ rw
          (split-none b'.' fraction
            (all_of-imp is_digit (λ d. not (d == b'.')) fraction (λ d e. ground arith) k))
          refl in
    rw
      (
        trim_left-none is_space c (whole ++ b'.' ∷ fraction) (ground arith),
        trim_right-none is_space text no_space,
        no_exponent,
        parts,
      )
      (ground arith)

two_digits_value : (n : ℕ) → n < 100 → parse_int (two_digits n) ≡ some (pos n)
unfolding parse_int parse_digits
two_digits_value n h = ground arith

decimal_value : (n : ℕ) → n ≤ max_int64 → parse_int (decimal n) ≡ some (pos n)
decimal_value n h =
    let (c, s, e) = decimal_cons n in
    let digits : all_of is_digit (c ∷ s) ≡ true = ap (all_of is_digit) (sym e) ∙ all_of-decimal n in
    let value : parse_digits 0 (c ∷ s) ≡ some n =
      ap (parse_digits 0) (sym e) ∙ parse_digits-decimal n in
    rw e (parse_int-digits c s n (ground arith) value ∙ ground arith)

sum_in_range :
    (whole fraction : ℕ)
    → whole * 100 + fraction ≤ max_int64
    → sum_cents (pos whole) (pos fraction) ≡ ok (pos (whole * 100 + fraction))
unfolding ◌+ℤ◌ ◌-ℤ◌
sum_in_range whole fraction h = ground arith

-- The parts of an amount as CreateTransaction sends it.
pub encode_amount_parts :
    (cents : ℕ)
    → (c : ℕ) × (s : Text) × (decimal (cents / 100) ≡ c ∷ s)
      × (amount_parts (encode_amount cents) ≡ ok (c ∷ s, two_digits (cents % 100)))
unfolding encode_amount
encode_amount_parts cents =
    let (c, s, e) = decimal_cons (cents / 100) in
    let digits : all_of is_digit (c ∷ s) ≡ true =
      ap (all_of is_digit) (sym e) ∙ all_of-decimal (cents / 100) in
    (c, s, e, rw e (amount_parts_lem c s (two_digits (cents % 100)) digits (ground arith)))

-- Every amount that is sent to the provider as a number of cents, and fits an int64, comes back
-- from a callback with the same text as the same number of cents.
pub parse_callback_amount-encode_amount :
    (cents : ℕ) → cents ≤ max_int64 → parse_callback_amount (encode_amount cents) ≡ ok (pos cents)
unfolding parse_callback_amount
parse_callback_amount-encode_amount cents h =
    let (c, s, e, parts) = encode_amount_parts cents in
    let whole : parse_int (c ∷ s) ≡ some (pos (cents / 100)) =
      ap parse_int (sym e) ∙ decimal_value (cents / 100) (omega arith) in
    rw (parts, whole, two_digits_value (cents % 100) (omega arith))
      (ground (arith, sum_in_range (cents / 100) (cents % 100)))

pub first-split :
    (sep d : ℕ) (raw : Text) (c : ℕ) (part : Text) (parts : List Text)
    → split sep raw ≡ (c ∷ part) ∷ parts
    → starts_with d raw ≡ starts_with d (c ∷ part)
unfolding split
first-split sep d [] c part parts h = cc
first-split sep d (x ∷ raw) c part parts h = first_of (split sep raw) h
  where
    first_of :
        (rest : List Text)
        → (if x == sep then [] ∷ rest else push_part x rest) ≡ (c ∷ part) ∷ parts
        → (x == d) ≡ (c == d)
    first_of [] k = ground arith
    first_of (r ∷ rest) k = ground arith

pub fraction_range :
    (c d : ℕ) (f : ℤ) → parse_int (c ∷ d ∷ []) ≡ some f → (negsuc 8 ≤ℤ f) × (f ≤ℤ pos 99)
unfolding parse_int parse_digits
fraction_range c d f h = ground arith
