-- ===== src/Database/Orders/Chargeback.antt =====
-- internal/database/orders.go: CancelPaidOrderAndDowngradeCAS and CancelOrderCAS.
pub mod Laws
use rs8kvn_bot.Common.{
  ℕ, Bool, true, false, not, ◌&&◌, ◌||◌, Option, none, some, String, ltb, ◌==◌, if◌then◌else◌, find,
  count_if, List, [], ◌∷◌, str_eq, any_of,
}
use rs8kvn_bot.Common.Int.{ℤ, pos}
use rs8kvn_bot.Database.Models.{
  Time, Subscription, SubscriptionStatus, Order, OrderStatus, ChargebackResult, ActorType, AuditLog,
  is_paid, same_status, is_active_subscription,
}
use rs8kvn_bot.Database.Monad.{
  M, Db, Error, Result, ok, err, pure, raise, or_raise, ◌>>=◌, ◌>>◌, query, transaction,
  best_effort, insert_audit_log,
}
use rs8kvn_bot.Database.Orders.Confirm.{
  ApplyPlanInTx, update_orders, update_subscriptions, first_order, first_subscription,
  is_some_after,
}

-- `payment_provider = ? AND provider_payment_id = ?`
abbrev pub has_payment : String → String → Order → Bool
has_payment provider payment_id o =
    str_eq o.payment_provider provider && str_eq o.provider_payment_id payment_id

abbrev pub cancel : Order → Order
cancel o = record o { status = OrderStatus.canceled }

-- `expires_at IS NULL OR expires_at > ?`
abbrev is_valid_at : Option Time → Time → Bool
is_valid_at none now = true
is_valid_at (some t) now = ltb now t

-- a paid order that still covers the subscription
abbrev pub covers : ℕ → Time → Order → Bool
covers sub_id now o =
    o.subscription_id == sub_id && is_paid o.status && is_valid_at o.expires_at now

-- the columns that a return to the free plan writes
abbrev pub downgrade : ℕ → Subscription → Subscription
downgrade free_plan_id s = record s {
  status = SubscriptionStatus.active;
  expires_at = none;
  plan_id = free_plan_id;
  product_id = none;
  started_at = none;
  price_paid_cents = pos 0;
  currency = none;
}

abbrev pub run_apply : ApplyPlanInTx → ℕ → ℕ → M (Unit {0})
run_apply none sub_id plan = pure tt
run_apply (some f) sub_id plan = f sub_id plan

abbrev pub outcome : Order → Bool → Bool → Bool → Option ChargebackResult
outcome order was_paid transitioned downgraded = some (record {
  order = order;
  was_paid = was_paid;
  transitioned = transitioned;
  downgraded = downgraded;
})

-- The rest of the transaction for a paid order whose subscription is active.
unfoldable pub revoke_entitlement :
    Order → Subscription → Time → ℕ → ApplyPlanInTx → M (Option ChargebackResult)
revoke_entitlement order current now free_plan_id apply = do
  active_paid ← query (λ t. count_if (covers order.subscription_id now) t.orders)
  if ltb 0 active_paid then pure (outcome (cancel order) true true false) else (do
    n ← update_subscriptions (λ s. s.id == order.subscription_id) (downgrade free_plan_id)
    if n == 0 then raise Error.subscription_not_found else (do
      run_apply apply order.subscription_id free_plan_id
      insert_audit_log (AuditLog.chargeback_received (cancel order) current true)
      pure (outcome (cancel order) true true true)))

-- Once the order has been found: lock the subscription, read the order again, cancel it.
unfoldable pub cancel_found : Order → Time → ℕ → ApplyPlanInTx → M (Option ChargebackResult)
cancel_found found now free_plan_id apply = do
  current ← first_subscription found.subscription_id
  order ← first_order (λ o. o.id == found.id)
  let was_paid = is_paid order.status
  let from = if was_paid then OrderStatus.paid else OrderStatus.pending
  n ← update_orders (λ o. o.id == order.id && same_status from o.status) cancel
  if n == 0 then pure (outcome order was_paid false false) else (do
    insert_audit_log (AuditLog.order_canceled order ActorType.payment_provider)
    if not was_paid || not (is_active_subscription current.status)
        then pure (outcome (cancel order) was_paid true false)
        else revoke_entitlement order current now free_plan_id apply)

unfoldable pub chargeback_body :
    String → String → Time → ℕ → ApplyPlanInTx → M (Option ChargebackResult)
chargeback_body provider payment_id now free_plan_id apply =
    query (λ t. find (has_payment provider payment_id) t.orders) >>= λ found. elim found [
      | none ↦ pure none
      | some order ↦ cancel_found order now free_plan_id apply
    ]

unfoldable pub cancel_paid_order_and_downgrade_cas :
    String → String → Time → ℕ → ApplyPlanInTx → M (Option ChargebackResult)
cancel_paid_order_and_downgrade_cas provider payment_id now free_plan_id apply =
    transaction (chargeback_body provider payment_id now free_plan_id apply)

-- CancelOrderCAS: the audit event of a cancellation is best-effort, after the update.
abbrev audit_cancellation : String → String → M (Unit {0})
audit_cancellation provider payment_id = first_order (has_payment provider payment_id) >>= λ order.
    insert_audit_log (AuditLog.order_canceled order ActorType.payment_provider)

unfoldable pub cancel_order_cas : String → String → List OrderStatus → M Bool
cancel_order_cas provider payment_id from = do
  n ←
      update_orders (λ o. has_payment provider payment_id o && any_of (same_status o.status) from)
        cancel
  if n == 0
      then pure false
      else (do best_effort (audit_cancellation provider payment_id); pure true)
