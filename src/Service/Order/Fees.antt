-- ===== src/Service/Order/Fees.antt =====
-- persistProviderFee: where a recorded fee comes from.
use rs8kvn_bot.Common.{ℕ, none, some, ◌≡◌, true, update_if, ◌==◌}
use rs8kvn_bot.Common.Int.{ℤ, pos}
use rs8kvn_bot.Database.Monad.{ok}
use rs8kvn_bot.Database.Orders.Intent.{set_amounts}
use rs8kvn_bot.Service.World.{World}
use rs8kvn_bot.Service.Platega.{Parsed, commission_cents}
use rs8kvn_bot.Service.Order.Reconcile.{StatusAnswer, is_status}

-- The fee that an answer of the provider justifies: zero for a transaction that it does not know,
-- and the rounded commission of a confirmed one.
abbrev pub Justifies : StatusAnswer → ℤ → Type 0
Justifies StatusAnswer.transaction_not_found fee = fee ≡ pos 0
Justifies StatusAnswer.provider_failed fee = ⊥
Justifies (StatusAnswer.response none) fee = ⊥
Justifies (StatusAnswer.response (some t)) fee =
    (is_status "CONFIRMED" t.status ≡ true) × (commission_cents t.commission ≡ Parsed.ok fee)

abbrev pub Records : ℕ → ℤ → ℤ → World → World → Type 0
Records id cents fee w w' =
    w'.db.tables.orders
    ≡ update_if (λ o. o.id == id) (set_amounts cents (some fee)) w.db.tables.orders
