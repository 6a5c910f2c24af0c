-- ===== src/Database/Subscriptions/Expiry.antt =====
-- ExpireSubscriptionWithPlanCAS: what it changes, and that it is atomic.
use rs8kvn_bot.Common.{ℕ, Bool, ◌&&◌, ◌==◌}
use rs8kvn_bot.Database.Models.{Subscription}
use rs8kvn_bot.Database.Subscriptions.{is_downgraded}

abbrev pub is_free : ℕ → ℕ → Subscription → Bool
is_free id free_plan_id s = s.id == id && is_downgraded free_plan_id s
