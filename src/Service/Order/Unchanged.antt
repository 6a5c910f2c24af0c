-- ===== src/Service/Order/Unchanged.antt =====
-- What a payment callback that activates nothing leaves.
use rs8kvn_bot.Common.{ℕ, ◌≡◌, ◌⊎◌, String, update_if}
use rs8kvn_bot.Common.Text.{Text}
use rs8kvn_bot.Database.Models.{Order}
use rs8kvn_bot.Database.Monad.{Tables}
use rs8kvn_bot.Database.Orders.Intent.{attached, unattached}
use rs8kvn_bot.Service.World.{World}

-- the tables, but for a payment id that an order without one has received
abbrev pub OnlyAttaches : String → Tables → Tables → Type 0
OnlyAttaches payment_id t t' =
    (t' ≡ t)
    ⊎ ((id : ℕ) × (t'
          ≡ record t { orders = update_if (unattached id) (attached payment_id) t.orders }))
