-- ===== src/Database/Orders/Confirm.antt =====
-- internal/database/orders.go: CalculatePaymentExpiry and ConfirmOrderPaidCAS. A plan change that
-- runs in the transaction (ApplyPlanInTxFn) is an argument; `none` is Go's nil function.
pub mod Activation
pub mod Laws
use rs8kvn_bot.Common.{
  ℕ, ◌+◌, ◌*◌, Bool, true, false, ◌&&◌, ◌||◌, Option, none, some, ltb, ◌==◌, if◌then◌else◌, find,
  update_if, count_if,
}
use rs8kvn_bot.Common.Int.{ℤ}
use rs8kvn_bot.Database.Models.{
  Time, day, Subscription, SubscriptionStatus, Product, Order, OrderStatus, AuditLog, is_pending,
  is_expired,
}
use rs8kvn_bot.Database.Monad.{
  M, Error, Result, ok, pure, or_raise, ◌>>=◌, ◌>>◌, statement, query, transaction,
  insert_audit_log,
}

abbrev pub is_some_after : Option Time → Time → Bool
is_some_after none now = false
is_some_after (some t) now = ltb now t

-- `sub.PlanID == product.PlanID && sub.ExpiresAt != nil && sub.ExpiresAt.After(now)`
abbrev pub extends_current : Time → Subscription → Product → Bool
extends_current now sub product = sub.plan_id == product.plan_id && is_some_after sub.expires_at now

abbrev time_or : Option Time → Time → Time
time_or none d = d
time_or (some t) d = t

-- AddDate(0, 0, days) in UTC adds whole days.
abbrev pub add_days : Time → ℕ → Time
add_days t n = t + n * day

unfoldable pub calculate_payment_expiry : Time → Option Subscription → Option Product → Time
calculate_payment_expiry now none none = now
calculate_payment_expiry now (some sub) none = now
calculate_payment_expiry now none (some product) = add_days now product.duration_days
calculate_payment_expiry now (some sub) (some product) =
    let base = if extends_current now sub product then time_or sub.expires_at now else now in
    add_days base product.duration_days

abbrev pub ApplyPlanInTx : Type 0
ApplyPlanInTx = Option (ℕ → ℕ → M (Unit {0}))

-- UPDATE orders SET ... WHERE ..., with RowsAffected
abbrev pub update_orders : (Order → Bool) → (Order → Order) → M ℕ
update_orders p f =
    statement (λ t. (ok (count_if p t.orders), record t { orders = update_if p f t.orders }))

abbrev pub update_subscriptions : (Subscription → Bool) → (Subscription → Subscription) → M ℕ
update_subscriptions p f = statement (λ t.
    (ok (count_if p t.subscriptions), record t { subscriptions = update_if p f t.subscriptions }))

-- tx.First(&row, id), with gorm.ErrRecordNotFound mapped to the given error
abbrev pub first_order : (Order → Bool) → M Order
first_order p = query (λ t. find p t.orders) >>= λ o. or_raise o Error.order_not_found

abbrev pub first_subscription : ℕ → M Subscription
first_subscription id = query (λ t. find (λ s. s.id == id) t.subscriptions) >>= λ s.
    or_raise s Error.subscription_not_found

-- `id = ? AND status IN (pending, expired)`
abbrev pub awaits_payment : ℕ → Order → Bool
awaits_payment order_id o = o.id == order_id && (is_pending o.status || is_expired o.status)

abbrev pub mark_paid : Time → Time → Time → ℤ → Order → Order
mark_paid paid_at activated_at new_expiry cents o = record o {
  status = OrderStatus.paid;
  paid_at = some paid_at;
  activated_at = some activated_at;
  expires_at = some new_expiry;
  callback_amount_cents = some cents;
}

-- the columns that the payment writes to the subscription
abbrev pub renew : Time → Time → Product → Subscription → Subscription
renew activated_at new_expiry product s = record s {
  plan_id = product.plan_id;
  status = SubscriptionStatus.active;
  expires_at = some new_expiry;
  product_id = some product.id;
  started_at = some activated_at;
  price_paid_cents = product.price_cents;
  currency = some product.currency;
  reminders_sent = 0;
}

-- `applyPlan != nil && currentSub.PlanID != product.PlanID`
abbrev pub run_plan_change : ApplyPlanInTx → ℕ → ℕ → ℕ → M (Unit {0})
run_plan_change none sub_id old_plan plan = pure tt
run_plan_change (some apply) sub_id old_plan plan =
    if old_plan == plan then pure tt else apply sub_id plan

-- the rest of the transaction, once the order's row is paid
unfoldable pub activate_subscription :
    Order → Subscription → Time → Time → ℕ → Product → ApplyPlanInTx → M (Bool × Subscription)
activate_subscription order current activated_at new_expiry sub_id product apply = do
  n ← update_subscriptions (λ s. s.id == sub_id) (renew activated_at new_expiry product)
  let renewed = renew activated_at new_expiry product current
  if n == 0 then (λ db. (Result.err Error.subscription_not_found, db)) else (do
    insert_audit_log (AuditLog.payment_confirmed order renewed product new_expiry)
    insert_audit_log (AuditLog.subscription_renewed current renewed product)
    run_plan_change apply sub_id current.plan_id product.plan_id
    pure (true, renewed))

-- The transaction's body. The subscription in the result is what `*sub` holds at the end.
unfoldable pub confirm_body :
    ℕ → Time → Time → Subscription → Product → ApplyPlanInTx → ℤ → M (Bool × Subscription)
confirm_body order_id paid_at activated_at sub product apply cents = do
  current ← first_subscription sub.id
  let new_expiry = calculate_payment_expiry activated_at (some current) (some product)
  order ← first_order (λ o. o.id == order_id)
  n ← update_orders (awaits_payment order_id) (mark_paid paid_at activated_at new_expiry cents)
  if n == 0
      then pure (false, sub)
      else activate_subscription order current activated_at new_expiry sub.id product apply

-- ConfirmOrderPaidCAS. The result holds what *sub is after a success; that *sub may stay changed
-- after a rollback is left out, since after an error the caller reads only its Telegram id.
unfoldable pub confirm_order_paid_cas :
    ℕ → Time → Time → Subscription → Product → ApplyPlanInTx → ℤ → M (Bool × Subscription)
confirm_order_paid_cas order_id paid_at activated_at sub product apply cents =
    transaction (confirm_body order_id paid_at activated_at sub product apply cents)
