-- ===== src/Service/Platega.antt =====
-- internal/service/payment/platega: the amounts of callback.go, status.go and client.go. Texts are
-- code points. ParseCallbackAmount adds and subtracts int64 values, so the model wraps there.
pub mod Amount
pub mod Bounds
pub mod Commission
use rs8kvn_bot.Common.{
  ℕ, suc, ◌+◌, ◌-◌, ◌*◌, ◌/◌, ◌%◌, ◌≤◌, ◌<◌, Bool, true, false, not, ◌&&◌, ◌||◌, Option, none, some,
  List, [], ◌∷◌, ◌++◌, ltb, leb, ◌==◌, if◌then◌else◌, any_of, all_of, length, take,
}
use rs8kvn_bot.Common.Int.{ℤ, pos, negsuc, ltb_ℤ, eqb_ℤ, ◌+ℤ◌, ◌-ℤ◌}
use rs8kvn_bot.Common.Text.{
  Text, is_digit, is_empty, trim_space, trim_right, starts_with, split, parse_int, max_int64,
  wrap64, decimal, two_digits,
}

-- The errors of the two parsers, by their texts.
pub data AmountError : Type 0 where
  required not_non_negative not_fixed_point invalid too_many_decimals out_of_range : AmountError

pub data Parsed {ℓ} (A : Type ℓ) : Type ℓ where
  ok : A → Parsed A
  err : AmountError → Parsed A

infixl 5 ◌>>=◌ ◌>>◌
abbrev pub ◌>>=◌ {ℓ κ} : {A : Type ℓ} {B : Type κ} → Parsed A → (A → Parsed B) → Parsed B
ok a >>= f = f a
err e >>= f = err e

abbrev pub ◌>>◌ {ℓ} : {B : Type ℓ} → Parsed (Unit {0}) → Parsed B → Parsed B
m >> k = m >>= λ _. k

-- `if bad { return 0, e }`
abbrev pub refuse : Bool → AmountError → Parsed (Unit {0})
refuse true e = err e
refuse false e = ok tt

abbrev pub or_refuse {ℓ} : {A : Type ℓ} → Option A → AmountError → Parsed A
or_refuse none e = err e
or_refuse (some a) e = ok a

-- The parts at the point: the whole part, and the fraction, empty when there is none.
abbrev pub whole_and_fraction : List Text → Parsed (Text × Text)
whole_and_fraction [] = err AmountError.invalid
whole_and_fraction ([] ∷ parts) = err AmountError.invalid
whole_and_fraction ((c ∷ whole) ∷ []) = ok (c ∷ whole, [])
whole_and_fraction ((c ∷ whole) ∷ fraction ∷ []) = ok (c ∷ whole, fraction)
whole_and_fraction ((c ∷ whole) ∷ fraction ∷ part ∷ parts) = err AmountError.invalid

-- The tests that both parsers begin with.
unfoldable pub amount_parts : Text → Parsed (Text × Text)
amount_parts amount = do
  let raw = trim_space amount
  refuse (is_empty raw) AmountError.required
  refuse (starts_with b'-' raw || starts_with b'+' raw) AmountError.not_non_negative
  refuse (any_of (λ c. c == b'e' || c == b'E') raw) AmountError.not_fixed_point
  whole_and_fraction (split b'.' raw)

-- `strings.TrimRight(fraction, "0")`
abbrev pub trim_zeroes : Text → Text
trim_zeroes s = trim_right (λ c. c == b'0') s

-- two digits of the fraction, padded with zeroes
abbrev pub cents_text : Text → Text
cents_text [] = b'0' ∷ b'0' ∷ []
cents_text (c ∷ []) = c ∷ b'0' ∷ []
cents_text (c ∷ d ∷ s) = c ∷ d ∷ []

abbrev pub times_100 : ℤ → ℤ
times_100 (pos n) = wrap64 (pos (n * 100))
times_100 (negsuc n) = wrap64 (negsuc (n * 100 + 99))

-- The last lines: the sum, unless it passes math.MaxInt64.
abbrev pub sum_cents : ℤ → ℤ → Parsed ℤ
sum_cents whole fraction = do
  refuse (ltb_ℤ (wrap64 (pos max_int64 -ℤ fraction)) (times_100 whole)) AmountError.out_of_range
  ok (wrap64 (times_100 whole +ℤ fraction))

-- ParseCallbackAmount
unfoldable pub parse_callback_amount : Text → Parsed ℤ
parse_callback_amount amount = do
  (whole_text, fraction_text) ← amount_parts amount
  refuse (ltb 2 (length fraction_text) && ltb 2 (length (trim_zeroes fraction_text)))
      AmountError.too_many_decimals
  whole ← or_refuse (parse_int whole_text) AmountError.out_of_range
  refuse (ltb_ℤ (pos (max_int64 / 100)) whole) AmountError.out_of_range
  fraction ← or_refuse (parse_int (cents_text fraction_text)) AmountError.invalid
  sum_cents whole fraction

abbrev pub digit : ℕ → ℕ
digit c = c - b'0'

-- the cents of the first two digits
abbrev pub first_cents : Text → ℕ
first_cents [] = 0
first_cents (c ∷ []) = digit c * 10
first_cents (c ∷ d ∷ s) = digit c * 10 + digit d

-- `len(fraction) >= 3 && fraction[2] >= '5'`
abbrev pub rounds_up : Text → Bool
rounds_up (c ∷ d ∷ e ∷ s) = leb b'5' e
rounds_up _ = false

-- The last lines: the total, with its checks for overflow.
abbrev pub commission_total : ℤ → Text → Parsed ℤ
commission_total whole fraction = do
  let cents = first_cents fraction
  refuse (ltb_ℤ (pos ((max_int64 - cents) / 100)) whole) AmountError.out_of_range
  let total = times_100 whole +ℤ pos cents
  refuse (rounds_up fraction && eqb_ℤ total (pos max_int64)) AmountError.out_of_range
  ok (if rounds_up fraction then total +ℤ pos 1 else total)

-- CommissionCents
unfoldable pub commission_cents : Text → Parsed ℤ
commission_cents commission = do
  (whole_text, fraction) ← amount_parts commission
  refuse (not (all_of is_digit (whole_text ++ fraction))) AmountError.invalid
  whole ← or_refuse (parse_int whole_text) AmountError.out_of_range
  commission_total whole fraction

-- The amount that CreateTransaction sends: fmt.Appendf(nil, "%d.%02d", cents/100, cents%100).
unfoldable pub encode_amount : ℕ → Text
encode_amount cents = decimal (cents / 100) ++ b'.' ∷ two_digits (cents % 100)
