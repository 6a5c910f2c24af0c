-- ===== src/Service/Order/Expiry.antt =====
-- The reconciliation expires an order only on the provider's word.
use rs8kvn_bot.Common.{none, some, ◌≡◌, true, update_if}
use rs8kvn_bot.Common.Text.{Text}
use rs8kvn_bot.Database.Models.{Order}
use rs8kvn_bot.Database.Orders.Intent.{pending_with_id, expire}
use rs8kvn_bot.Service.World.{World}
use rs8kvn_bot.Service.Order.Reconcile.{StatusAnswer, normalized, is_refusal}

-- The provider says that the payment will not come.
abbrev pub IsRefused : StatusAnswer → Type 0
IsRefused StatusAnswer.transaction_not_found = Unit
IsRefused StatusAnswer.provider_failed = ⊥
IsRefused (StatusAnswer.response none) = ⊥
IsRefused (StatusAnswer.response (some t)) = is_refusal (normalized t.status) ≡ true

-- Only the order's own row, and only if it is pending, has changed in the orders; the subscriptions
-- are as before.
abbrev Expires : Order → World → World → Type 0
Expires o w w' =
    (w'.db.tables.orders ≡ update_if (pending_with_id o.id) expire w.db.tables.orders)
    × (w'.db.tables.subscriptions ≡ w.db.tables.subscriptions)
