-- ===== src/Scenarios/Callbacks.antt =====
-- Callbacks of the payment provider for the shop's one order.
use rs8kvn_bot.Common.{true, false, none, some, [], ◌∷◌, ◌≡◌, refl, arith, ◌==◌, find}
use rs8kvn_bot.Common.Int.{◌+ℤ◌, ◌-ℤ◌}
use rs8kvn_bot.Common.Text.{Text, trim_left, trim_right, split, parse_int, parse_digits}
use rs8kvn_bot.Database.Models.{Order, SyncStatus}
use rs8kvn_bot.Database.Monad.{ok, Error, transaction}
use rs8kvn_bot.Database.Products.{get_product_by_id}
use rs8kvn_bot.Database.Subscriptions.{get_by_id}
use rs8kvn_bot.Database.SubscriptionNodes.{update_subscription_node_status}
use rs8kvn_bot.Database.Orders.Confirm.{confirm_order_paid_cas, confirm_body, activate_subscription}
use rs8kvn_bot.Database.Orders.Chargeback.{cancel_order_cas}
use rs8kvn_bot.Database.Orders.Intent.{platega, get_order_by_provider_payment_id}
use rs8kvn_bot.Database.Orders.Lifecycle.Evolves.{Follows}
use rs8kvn_bot.Service.PlanReconcile.{apply_plan_to_subscription_in_tx}
use rs8kvn_bot.Service.PlanReconcile.Frame.{apply_in_tx-OnlyNodes}
use rs8kvn_bot.Service.World.{World}
use rs8kvn_bot.Service.Platega.{parse_callback_amount, amount_parts}
use rs8kvn_bot.Service.Order.{OrderService, SyncService}
use rs8kvn_bot.Service.Order.Confirm.{
  confirm_payment, confirm_found, confirm_order, confirm_amount, confirm_status, confirm_ready,
  confirm_with, after_activation,
}
use rs8kvn_bot.Service.Order.Payload.{find_payment_order}
use rs8kvn_bot.Service.Order.Lifecycle.{OnlyBindings}
use rs8kvn_bot.Service.Order.Guards.{activates, IsPayable, Pays, confirm_payment-Pays}
use rs8kvn_bot.Service.Order.Alerts.{Alerts, confirm_payment-Alerts}
use rs8kvn_bot.Service.Order.Once.{confirm_payment_once}
use rs8kvn_bot.Service.Order.Cancel.{
  cancel_payment_by_provider, cancel_found_order, cancel_amount, cancel_by_status, cancel_pending,
  canceled_status,
}
use rs8kvn_bot.Service.Order.CancelGuards.{
  OnlyCancelsPending, cancel_payment-Pays, cancel_payment_only_pending,
}
use rs8kvn_bot.Service.Order.History.{start, then_call, confirm, service_lifecycle}
use rs8kvn_bot.Service.Order.{Uuid}
use rs8kvn_bot.Service.Order.Activation.{Activated, confirm_payment_activates}
use rs8kvn_bot.Service.Order.Reconcile.{StatusAnswer, persist_provider_fee}
use rs8kvn_bot.Common.{String, Option}
use rs8kvn_bot.Common.Int.{pos}
use rs8kvn_bot.Scenarios.{shop, purchase, alice, month}
use rs8kvn_bot.Scenarios.Plans.{in_order}

-- a synchronization that finds the node of the subscription in place
abbrev sync : SyncService
sync = record {
  apply_plan_to_subscription_in_tx = apply_plan_to_subscription_in_tx in_order;
  sync_subscription = λ id. update_subscription_node_status id 11 SyncStatus.active;
}

abbrev service : OrderService
service = record {
  has_payment_provider = true;
  has_sub_svc = true;
  sync_svc = some sync;
  lock_error = none;
  now = 600;
}

sync-OnlyBindings : OnlyBindings sync
unfolding update_subscription_node_status
sync-OnlyBindings = record {
  apply_only = apply_in_tx-OnlyNodes in_order;
  sync_only = λ id db. (ground arith, ground arith);
}

abbrev world : World
world = record {
  admin = record { has_admin_bot = true; telegram_admin_id = some (pos 7) };
  db = shop;
  outbox = [];
}

-- 199.00 and 198.99
abbrev price : Text
price = b'1' ∷ b'9' ∷ b'9' ∷ b'.' ∷ b'0' ∷ b'0' ∷ []

abbrev less : Text
less = b'1' ∷ b'9' ∷ b'8' ∷ b'.' ∷ b'9' ∷ b'9' ∷ []

confirm_payment-Pays_example :
    (o : Order) × ((find_payment_order "tx1" [] world).0 ≡ ok o)
    × IsPayable service o
    × Pays price "RUB" o
unfolding confirm_payment find_payment_order get_order_by_provider_payment_id confirm_found
    confirm_order parse_callback_amount amount_parts trim_left trim_right split parse_int
    parse_digits ◌-ℤ◌ ◌+ℤ◌ confirm_amount confirm_status confirm_ready get_product_by_id get_by_id
    confirm_with confirm_order_paid_cas confirm_body transaction activate_subscription
    after_activation
confirm_payment-Pays_example = confirm_payment-Pays service "tx1" [] price "RUB" world refl

confirm_payment-Alerts_example : Alerts world (confirm_payment service "tx1" [] less "RUB" world).1
unfolding confirm_payment find_payment_order get_order_by_provider_payment_id confirm_found
    confirm_order parse_callback_amount amount_parts trim_left trim_right split parse_int
    parse_digits ◌-ℤ◌ ◌+ℤ◌ confirm_amount
confirm_payment-Alerts_example =
    confirm_payment-Alerts service "tx1" [] less "RUB" world Error.amount_mismatch refl refl refl

abbrev after_first : World
after_first = (confirm_payment service "tx1" [] price "RUB" world).1

confirm_payment_once_example :
    activates (confirm_payment service "tx1" [] price "RUB" after_first).0 ≡ false
unfolding confirm_payment find_payment_order get_order_by_provider_payment_id confirm_found
    confirm_order parse_callback_amount amount_parts trim_left trim_right split parse_int
    parse_digits ◌-ℤ◌ ◌+ℤ◌ confirm_amount confirm_status confirm_ready get_product_by_id get_by_id
    confirm_with confirm_order_paid_cas confirm_body transaction activate_subscription
    after_activation
confirm_payment_once_example =
    confirm_payment_once service service "tx1" [] [] price price "RUB" "RUB" world after_first
      sync-OnlyBindings sync-OnlyBindings refl refl

cancel_payment-Pays_example :
    (o : Order) × ((get_order_by_provider_payment_id platega "tx1" shop).0 ≡ ok o)
    × Pays price "RUB" o
unfolding cancel_payment_by_provider get_order_by_provider_payment_id cancel_found_order
    cancel_amount parse_callback_amount amount_parts trim_left trim_right split parse_int
    parse_digits ◌-ℤ◌ ◌+ℤ◌ cancel_by_status cancel_pending cancel_order_cas
cancel_payment-Pays_example =
    cancel_payment-Pays service "tx1" canceled_status price "RUB" world refl

cancel_payment_only_pending_example :
    OnlyCancelsPending service "tx1" canceled_status after_first.db.tables
      (cancel_payment_by_provider service "tx1" canceled_status price "RUB" after_first).1.db.tables
cancel_payment_only_pending_example =
    cancel_payment_only_pending service "tx1" canceled_status price "RUB" after_first refl

service_lifecycle_example :
    (o : Order) × (find (λ r. r.id == 5) after_first.db.tables.orders ≡ some o) × Follows purchase o
service_lifecycle_example =
    service_lifecycle world after_first 5 purchase
      (then_call start (confirm service "tx1" [] price "RUB" sync-OnlyBindings)) refl

confirm_payment_activates_example :
    Activated service "tx1" sync sync-OnlyBindings purchase alice month
      (pos 19900)
      shop
      (confirm_payment service "tx1" [] price "RUB" world)
unfolding parse_callback_amount amount_parts trim_left trim_right split parse_int parse_digits ◌-ℤ◌
    ◌+ℤ◌
confirm_payment_activates_example =
    confirm_payment_activates service "tx1" sync sync-OnlyBindings price "RUB" (pos 19900) purchase
      refl refl refl refl (omega arith) [] world month alice refl refl refl (λ n. refl) refl refl
      refl refl refl

-- the provider says that the transaction of the order is canceled
abbrev refused : String → StatusAnswer
refused p = StatusAnswer.response (
    some (record {
      status = b'c' ∷ b'a' ∷ b'n' ∷ b'c' ∷ b'e' ∷ b'l' ∷ b'e' ∷ b'd' ∷ [];
      amount = [];
      currency = "RUB";
      commission = [];
    }))

abbrev stored : Text → Option Uuid
stored s = some (record { version = 4; text = "tx1" })

-- the provider confirms the transaction of the order and charges 52.50
abbrev charged : StatusAnswer
charged = StatusAnswer.response (
    some (record {
      status = b'C' ∷ b'O' ∷ b'N' ∷ b'F' ∷ b'I' ∷ b'R' ∷ b'M' ∷ b'E' ∷ b'D' ∷ [];
      amount = price;
      currency = "RUB";
      commission = b'5' ∷ b'2' ∷ b'.' ∷ b'5' ∷ [];
    }))

abbrev with_fee : World
with_fee = (persist_provider_fee charged 5 (pos 19900) world).1
