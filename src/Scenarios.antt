-- ===== src/Scenarios.antt =====
-- One shop at work: a subscription, a product, an order and the nodes of two plans.
pub mod Plans
pub mod Retries
pub mod Intents
pub mod Amounts
pub mod Callbacks
pub mod Upkeep
pub mod Requests
pub mod Locks
pub mod Campaigns
pub mod Trials
pub mod Reminding
use rs8kvn_bot.Common.{
  ℕ, Bool, true, false, Option, none, some, String, List, [], ◌∷◌, ◌≡◌, refl, ◌+◌, ◌*◌, ◌==◌, find,
}
use rs8kvn_bot.Common.Int.{ℤ, pos}
use rs8kvn_bot.Database.Models.{
  Time, day, Subscription, SubscriptionStatus, Node, NodeType, Plan, PlanNode, Product, Order,
  OrderStatus, SubscriptionNode, SyncStatus, ChargebackResult,
}
use rs8kvn_bot.Database.Monad.{Db, Tables, Result, M, transaction}
use rs8kvn_bot.Database.Orders.Confirm.{
  mark_paid, confirm_order_paid_cas, calculate_payment_expiry, confirm_body, activate_subscription,
}
use rs8kvn_bot.Database.Orders.Chargeback.{cancel}
use rs8kvn_bot.Database.Orders.Lifecycle.Evolves.{Follows}
use rs8kvn_bot.Database.Orders.Lifecycle.Reach.{here, next, confirm, order_lifecycle}
use rs8kvn_bot.Database.Orders.Confirm.Laws.{
  activated, confirm_once, confirm_unactivated_unchanged, payment_expiry,
}

abbrev pub alice : Subscription
alice = record {
  id = 7;
  telegram_id = pos 42;
  username = "alice";
  client_id = "c7";
  subscription_id = "s7";
  expires_at = some 1000;
  status = SubscriptionStatus.active;
  invite_code = none;
  plan_id = 1;
  referred_by = none;
  product_id = none;
  started_at = none;
  price_paid_cents = pos 0;
  currency = none;
  reminders_sent = 2;
  traffic_reminders_sent = 0;
  created_at = 0;
}

abbrev pub month : Product
month = record {
  id = 3;
  plan_id = 1;
  name = "month";
  duration_days = 30;
  price_cents = pos 19900;
  currency = "RUB";
  is_active = true;
}

abbrev pub purchase : Order
purchase = record {
  id = 5;
  subscription_id = 7;
  product_id = 3;
  status = OrderStatus.pending;
  amount_cents = pos 19900;
  callback_amount_cents = none;
  provider_fee_cents = none;
  currency = "RUB";
  payment_provider = "platega";
  provider_payment_id = "tx1";
  created_at = 100;
  paid_at = none;
  activated_at = none;
  expires_at = none;
  payment_url = "";
  payment_expires_at = none;
  payment_creation_uncertain = false;
}

abbrev pub germany : Node
germany = record { id = 11; name = "de"; is_active = true; type = NodeType.three_x_ui }

abbrev pub norway : Node
norway = record { id = 12; name = "no"; is_active = true; type = NodeType.proxman }

abbrev pub bound : ℕ → SyncStatus → SubscriptionNode
bound n st = record {
  subscription_id = 7;
  node_id = n;
  status = st;
  retry_count = 3;
  retry_at = some 50;
  last_error = none;
}

abbrev pub shop_tables : Tables
shop_tables = record {
  orders = purchase ∷ [];
  subscriptions = alice ∷ [];
  products = month ∷ [];
  plans = [];
  nodes = germany ∷ norway ∷ [];
  plan_nodes = record { plan_id = 1; node_id = 11 } ∷ record { plan_id = 2; node_id = 12 } ∷ [];
  subscription_nodes = bound 11 SyncStatus.active ∷ [];
  audit_log = [];
  next_order_id = 6;
  broadcasts = [];
  invites = [];
  trial_requests = [];
  next_subscription_id = 8;
}

abbrev pub shop : Db
shop = record { tables = shop_tables; faults = λ n. none; tick = 0 }

abbrev pub after_payment : Db
after_payment = (confirm_order_paid_cas 5 600 600 alice month none (pos 19900) shop).1

payment_expiry_example : calculate_payment_expiry 600 (some alice) (some month) ≡ 1000 + 30 * day
payment_expiry_example = payment_expiry 600 alice month

confirm_once_example :
    (activated (confirm_order_paid_cas 5 900 900 alice month none (pos 19900) after_payment).0
      ≡ false)
    × ((confirm_order_paid_cas 5 900 900 alice month none (pos 19900) after_payment).1.tables
        ≡ after_payment.tables)
unfolding confirm_order_paid_cas confirm_body activate_subscription transaction
confirm_once_example =
    confirm_once 5 600 900 alice alice month month none none (pos 19900) (pos 19900) shop
      after_payment tt refl refl

confirm_unactivated_unchanged_example :
    (confirm_order_paid_cas 9 600 600 alice month none (pos 19900) shop).1.tables ≡ shop_tables
unfolding confirm_order_paid_cas confirm_body transaction
confirm_unactivated_unchanged_example =
    confirm_unactivated_unchanged 9 600 alice month none (pos 19900) shop refl

-- The payment is charged back.
abbrev pub reversal : ChargebackResult
reversal = record {
  order = cancel (
      mark_paid 600 600 (calculate_payment_expiry 600 (some alice) (some month)) (pos 19900)
        purchase);
  was_paid = true;
  transitioned = true;
  downgraded = true;
}

order_lifecycle_example :
    (o : Order) × (find (λ r. r.id == 5) after_payment.tables.orders ≡ some o) × Follows purchase o
order_lifecycle_example =
    order_lifecycle shop after_payment 5 purchase
      (next here (confirm 5 600 alice month none (pos 19900) tt)) refl
