-- ===== src/Service/Platega/Commission.antt =====
-- CommissionCents rounds half up, and agrees with ParseCallbackAmount where both accept a text.
use rs8kvn_bot.Common.{
  ℕ, ◌+◌, ◌*◌, ◌/◌, ◌≤◌, ◌<◌, true, false, not, ◌&&◌, some, [], ◌∷◌, ◌++◌, ◌≡◌, refl, sym, ap, ◌∙◌,
  arith, ltb, length, all_of, all_of-append, all_of-behind, Option-cases, inl, inr,
}
use rs8kvn_bot.Common.Int.{ℤ, pos, negsuc, ltb_ℤ, ◌+ℤ◌, ◌-ℤ◌}
use rs8kvn_bot.Common.Text.{Text, is_digit, parse_int, parse_digits, max_int64, trim_right}
use rs8kvn_bot.Common.Text.Decimal.{parse_int-digits}
use rs8kvn_bot.Service.Platega.{
  Parsed, ok, err, AmountError, amount_parts, commission_cents, commission_total,
  parse_callback_amount, sum_cents, refuse, or_refuse, cents_text, trim_zeroes, rounds_up,
  first_cents, digit, ◌>>=◌, ◌>>◌,
}
use rs8kvn_bot.Service.Platega.Amount.{amount_parts_lem}
use rs8kvn_bot.Service.Platega.Bounds.{IsCents, amount_parts-IsUnsigned, unsigned_value}

total_half_up :
    (n c d e : ℕ) (more : Text)
    → n ≤ 92233720368547757
    → all_of is_digit (c ∷ d ∷ e ∷ more) ≡ true
    → commission_total (pos n) (c ∷ d ∷ e ∷ more)
      ≡ ok (pos ((n * 1000 + digit c * 100 + digit d * 10 + digit e + 5) / 10))
unfolding ◌+ℤ◌
total_half_up n c d e more h k = ground arith

-- A commission with three decimals or more is rounded half up to cents: its value in thousandths,
-- plus five, divided by ten. Further decimals do not matter. (The whole part stays below
-- 92233720368547758, so that the total fits.)
pub commission_rounds_half_up :
    (a : ℕ) (whole : Text) (n c d e : ℕ) (more : Text)
    → all_of is_digit (a ∷ whole) ≡ true
    → parse_digits 0 (a ∷ whole) ≡ some n
    → n ≤ 92233720368547757
    → all_of is_digit (c ∷ d ∷ e ∷ more) ≡ true
    → commission_cents ((a ∷ whole) ++ b'.' ∷ c ∷ d ∷ e ∷ more)
      ≡ ok (pos ((n * 1000 + digit c * 100 + digit d * 10 + digit e + 5) / 10))
unfolding commission_cents
commission_rounds_half_up a whole n c d e more h value le k =
    let digits = all_of-append is_digit (a ∷ whole) (c ∷ d ∷ e ∷ more) h k in
    let read : parse_int (a ∷ whole) ≡ some (pos n) =
      parse_int-digits a whole n (ground arith) value ∙ ground arith in
    rw (amount_parts_lem a whole (c ∷ d ∷ e ∷ more) h k, digits, read)
      (total_half_up n c d e more le k)

-- Two significant decimals: the third is a zero.
third_zero :
    (c d e : ℕ) (s : Text)
    → (ltb 2 (length (c ∷ d ∷ e ∷ s)) && ltb 2 (length (trim_zeroes (c ∷ d ∷ e ∷ s)))) ≡ false
    → rounds_up (c ∷ d ∷ e ∷ s) ≡ false
unfolding trim_right
third_zero c d e s h = ground arith

-- the values of the two parsers, once the parts and the whole part are known
abbrev callback_value : ℤ → Text → Parsed ℤ
callback_value whole fraction =
    or_refuse (parse_int (cents_text fraction)) AmountError.invalid >>= λ f. sum_cents whole f

two_cents :
    (c d : ℕ)
    → is_digit c ≡ true
    → is_digit d ≡ true
    → parse_int (c ∷ d ∷ []) ≡ some (pos (digit c * 10 + digit d))
unfolding parse_int parse_digits
two_cents c d h k = ground arith

read_cents :
    (s : Text) → all_of is_digit s ≡ true → parse_int (cents_text s) ≡ some (pos (first_cents s))
read_cents [] h = two_cents b'0' b'0' refl refl
read_cents (c ∷ []) h = two_cents c b'0' (ground arith) refl ∙ ground arith
read_cents (c ∷ d ∷ s) h = two_cents c d (ground arith) (ground arith)

first_cents-lt : (s : Text) → all_of is_digit s ≡ true → first_cents s < 100
first_cents-lt [] h = omega arith
first_cents-lt (c ∷ []) h = ground arith
first_cents-lt (c ∷ d ∷ s) h = ground arith

exact_total :
    (w n : ℕ) (z : ℤ)
    → n < 100
    → w ≤ 92233720368547758
    → sum_cents (pos w) (pos n) ≡ ok z
    → z ≡ pos (w * 100 + n)
unfolding ◌+ℤ◌ ◌-ℤ◌
exact_total w n z lt le h = ground arith

commission_exact :
    (w : ℕ) (s : Text) (z : ℤ)
    → w ≤ 92233720368547758
    → rounds_up s ≡ false
    → commission_total (pos w) s ≡ ok z
    → z ≡ pos (w * 100 + first_cents s)
unfolding ◌+ℤ◌
commission_exact w s z le r h = ground arith

few_decimals :
    (s : Text) → (ltb 2 (length s) && ltb 2 (length (trim_zeroes s))) ≡ false → rounds_up s ≡ false
few_decimals [] h = refl
few_decimals (c ∷ []) h = refl
few_decimals (c ∷ d ∷ []) h = refl
few_decimals (c ∷ d ∷ e ∷ s) h = third_zero c d e s h

parts_agree :
    (w : ℤ) (s : Text) (z z' : ℤ)
    → IsCents w
    → (ltb 2 (length s) && ltb 2 (length (trim_zeroes s))) ≡ false
    → ltb_ℤ (pos (max_int64 / 100)) w ≡ false
    → all_of is_digit s ≡ true
    → callback_value w s ≡ ok z
    → commission_total w s ≡ ok z'
    → z ≡ z'
parts_agree (pos w) s z z' cents few le digits h k =
    exact_total w (first_cents s) z (first_cents-lt s digits) (ground arith) (
      ap (λ o. or_refuse o AmountError.invalid >>= λ f. sum_cents (pos w) f)
        (sym (read_cents s digits))
      ∙ h)
    ∙ sym (commission_exact w s z' (ground arith) (few_decimals s few) k)
parts_agree (negsuc w) s z z' cents few le digits h k = cc

-- Where both parsers accept a text they read the same cents: no rounding happens on an amount that
-- a callback may carry.
pub commission_agrees :
    (amount : Text) (z z' : ℤ)
    → parse_callback_amount amount ≡ ok z
    → commission_cents amount ≡ ok z'
    → z ≡ z'
unfolding parse_callback_amount commission_cents
commission_agrees amount z z' h k = of_parts (amount_parts amount) refl h k
  where
    of_parts :
        (parts : Parsed (Text × Text))
        → amount_parts amount ≡ parts
        → (parts >>= λ p.
            refuse
              (ltb 2 (length p.1) && ltb 2 (length (trim_zeroes p.1)))
              AmountError.too_many_decimals
            >> (or_refuse (parse_int p.0) AmountError.out_of_range >>= λ w.
                refuse (ltb_ℤ (pos (max_int64 / 100)) w) AmountError.out_of_range
                >> callback_value w p.1))
          ≡ ok z
        → (parts >>= λ p.
            refuse (not (all_of is_digit (p.0 ++ p.1))) AmountError.invalid
            >> (or_refuse (parse_int p.0) AmountError.out_of_range >>= λ w. commission_total w p.1))
          ≡ ok z'
        → z ≡ z'
    of_parts (err e) g a b = cc
    of_parts (ok (w, f)) g a b = elim (Option-cases (parse_int w)) [
      | inl bad ↦ ground (arith, bad)
      | inr (v, ev) ↦
          parts_agree v f z z' (unsigned_value w v (amount_parts-IsUnsigned amount w f g) ev)
            (ground (arith, ev)) (ground (arith, ev))
            (all_of-behind is_digit w f (ground (arith, ev))) (ground (arith, ev))
            (ground (arith, ev))
    ]
