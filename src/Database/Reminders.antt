-- ===== src/Database/Reminders.antt =====
-- internal/database/subscription_reminders.go: the reminders that a subscription has had for its
-- expiry, as bits of a column. A bit is a power of two.
use rs8kvn_bot.Common.{
  ℕ, ◌+◌, ◌-◌, ◌/◌, ◌%◌, Bool, true, false, not, ◌&&◌, Option, none, some, List, leb, ◌==◌,
  if◌then◌else◌, str_eq, any_of, select, ◌||◌,
}
use rs8kvn_bot.Database.Models.{Time, Subscription, Plan, is_active_subscription}
use rs8kvn_bot.Database.Monad.{M, pure, ◌>>=◌, query}
use rs8kvn_bot.Database.Orders.Confirm.{update_subscriptions, first_subscription}
use rs8kvn_bot.Database.Subscriptions.{free_plan_name}
use rs8kvn_bot.Database.Trials.{trial_plan_name}

-- `sent & bit`, `sent | bit` and `sent & ^bit`
abbrev pub has_bit : ℕ → ℕ → Bool
has_bit bit sent = sent / bit % 2 == 1

abbrev pub set_bit : ℕ → ℕ → ℕ
set_bit bit sent = if has_bit bit sent then sent else sent + bit

abbrev pub clear_bit : ℕ → ℕ → ℕ
clear_bit bit sent = if has_bit bit sent then sent - bit else sent

abbrev pub expires_then : Time → Option Time → Bool
expires_then t none = false
expires_then t (some e) = e == t

-- `id = ? AND expires_at = ?`
abbrev pub is_term : ℕ → Time → Subscription → Bool
is_term id expires_at s = s.id == id && expires_then expires_at s.expires_at

abbrev pub is_unclaimed : ℕ → ℕ → Time → Subscription → Bool
is_unclaimed id bit expires_at s = is_term id expires_at s && not (has_bit bit s.reminders_sent)

abbrev pub set_reminder : ℕ → Subscription → Subscription
set_reminder bit s = record s { reminders_sent = set_bit bit s.reminders_sent }

abbrev pub clear_reminder : ℕ → Subscription → Subscription
clear_reminder bit s = record s { reminders_sent = clear_bit bit s.reminders_sent }

-- ClaimReminder
unfoldable pub claim_reminder : ℕ → ℕ → Time → M Bool
claim_reminder id bit expires_at = do
  n ← update_subscriptions (is_unclaimed id bit expires_at) (set_reminder bit)
  if n == 0 then (first_subscription id >>= λ current. pure false) else pure true

-- ReleaseReminder
unfoldable pub release_reminder : ℕ → ℕ → Time → M (Unit {0})
release_reminder id bit expires_at = do
  n ← update_subscriptions (is_term id expires_at) (clear_reminder bit)
  if n == 0 then (first_subscription id >>= λ current. pure tt) else pure tt

abbrev pub expires_within : Time → Time → Option Time → Bool
expires_within from to none = false
expires_within from to (some e) = leb from e && leb e to

-- the subquery: plans that are not paid for
abbrev pub is_unpaid_plan : ℕ → Plan → Bool
is_unpaid_plan id p = p.id == id && (str_eq p.name free_plan_name || str_eq p.name trial_plan_name)

-- GetSubscriptionsExpiringInRange
unfoldable pub get_subscriptions_expiring_in_range : Time → Time → M (List Subscription)
get_subscriptions_expiring_in_range from to = query (λ t.
    select
      (λ s.
        is_active_subscription s.status
        && (expires_within from to s.expires_at && not (any_of (is_unpaid_plan s.plan_id) t.plans)))
      t.subscriptions)
