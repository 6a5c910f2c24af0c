-- ===== src/Scenarios/Amounts.antt =====
-- Amounts that the payment provider sends: 199.00, 52.5000 and 1.005.
use rs8kvn_bot.Common.{[], ◌∷◌, ◌≡◌, refl, arith, ◌+◌, ◌*◌, ◌/◌}
use rs8kvn_bot.Common.Int.{pos, ◌+ℤ◌, ◌-ℤ◌}
use rs8kvn_bot.Common.Text.{Text, trim_left, trim_right, split, parse_int, parse_digits}
use rs8kvn_bot.Service.Platega.{
  ok, parse_callback_amount, commission_cents, encode_amount, amount_parts, digit,
}
use rs8kvn_bot.Service.Platega.Amount.{parse_callback_amount-encode_amount}
use rs8kvn_bot.Service.Platega.Bounds.{IsCents, parse_callback_amount-IsCents}
use rs8kvn_bot.Service.Platega.Commission.{commission_rounds_half_up, commission_agrees}

parse_callback_amount-encode_amount_example :
    parse_callback_amount (encode_amount 19900) ≡ ok (pos 19900)
parse_callback_amount-encode_amount_example =
    parse_callback_amount-encode_amount 19900 (omega arith)

-- 52.5000
abbrev trailing_zeroes : Text
trailing_zeroes = b'5' ∷ b'2' ∷ b'.' ∷ b'5' ∷ b'0' ∷ b'0' ∷ b'0' ∷ []

parse_callback_amount-IsCents_example : IsCents (pos 5250)
unfolding parse_callback_amount amount_parts trim_left trim_right split parse_int parse_digits ◌-ℤ◌
    ◌+ℤ◌
parse_callback_amount-IsCents_example =
    parse_callback_amount-IsCents trailing_zeroes (pos 5250) refl

commission_rounds_half_up_example :
    commission_cents (b'1' ∷ b'.' ∷ b'0' ∷ b'0' ∷ b'5' ∷ [])
    ≡ ok (pos ((1 * 1000 + digit b'0' * 100 + digit b'0' * 10 + digit b'5' + 5) / 10))
unfolding parse_digits
commission_rounds_half_up_example =
    commission_rounds_half_up b'1' [] 1 b'0' b'0' b'5' [] refl refl (omega arith) refl

commission_agrees_example : pos 5250 ≡ pos 5250
unfolding parse_callback_amount commission_cents amount_parts trim_left trim_right split parse_int
    parse_digits ◌-ℤ◌ ◌+ℤ◌
commission_agrees_example = commission_agrees trailing_zeroes (pos 5250) (pos 5250) refl refl
