-- ===== src/Service/Order/Cancel.antt =====
-- internal/service/order.go: CancelPaymentByProvider, under the lock of the payment, with
-- loadChargebackAlertContext and syncChargebackAfterCommit. The log and the metrics are left out.
pub mod Runs
use rs8kvn_bot.Common.{
  Bool, false, not, ◌&&◌, Option, none, some, String, [], ◌∷◌, ◌==◌, if◌then◌else◌, str_eq,
}
use rs8kvn_bot.Common.Int.{ℤ, ltb_ℤ}
use rs8kvn_bot.Common.Text.{Text}
use rs8kvn_bot.Database.Models.{Subscription, Product, Order, OrderStatus, Plan, ChargebackResult}
use rs8kvn_bot.Database.Monad.{Error, Result, ok, err}
use rs8kvn_bot.Database.Products.{get_product_by_id}
use rs8kvn_bot.Database.Subscriptions.{get_by_id, get_plan_by_name, free_plan_name}
use rs8kvn_bot.Database.Orders.Chargeback.{
  cancel, cancel_paid_order_and_downgrade_cas, cancel_order_cas,
}
use rs8kvn_bot.Database.Orders.Intent.{get_order_by_provider_payment_id, platega}
use rs8kvn_bot.Service.World.{
  S, Message, IssueEvent, PaymentIssue, pure, raise, lift, attempt, ◌>>=◌, ◌>>◌, notify_admin,
  bare_issue, order_issue, report, acknowledge,
}
use rs8kvn_bot.Service.Platega.{Parsed, parse_callback_amount}
use rs8kvn_bot.Service.Order.{OrderService, SyncService, plan_in_tx, nil_uuid}
use rs8kvn_bot.Service.Order.Confirm.{locked}
use rs8kvn_bot.Service.Order.Payload.{is_order_not_found}

abbrev pub canceled_status : String
canceled_status = "CANCELED"

abbrev pub chargebacked_status : String
chargebacked_status = "CHARGEBACKED"

-- the order and wasPaid
abbrev pub Cancellation : Type 0
Cancellation = Option Order × Bool

abbrev pub no_op : Cancellation
no_op = (none, false)

abbrev pub loaded : {A : Type 0} → Result A → Option A
loaded (ok a) = some a
loaded (err e) = none

-- loadChargebackAlertContext
unfoldable pub load_chargeback_alert_context : Order → S (Option Subscription × Option Product)
load_chargeback_alert_context order = attempt (lift (get_by_id order.subscription_id)) >>= λ sub.
    if order.product_id == 0
    then pure (loaded sub, none)
    else attempt (lift (get_product_by_id order.product_id)) >>= λ product.
        pure (loaded sub, loaded product)

module _ (service : OrderService) (payment_id status : String) where
  abbrev issue_for : IssueEvent → Order → PaymentIssue
  issue_for event order = order_issue event payment_id status order

  abbrev pub send_chargeback :
      ChargebackResult → Option Subscription × Option Product → S (Unit {0})
  send_chargeback result (sub, product) =
      notify_admin (Message.admin_chargeback sub result.order product result.downgraded)

  -- the alert of a chargeback on a paid order
  unfoldable pub alert_chargeback : ChargebackResult → S (Unit {0})
  alert_chargeback result =
      if result.was_paid
      then load_chargeback_alert_context result.order >>= send_chargeback result
      else pure tt

  -- syncChargebackAfterCommit, whose error is logged
  unfoldable pub sync_chargeback : SyncService → ChargebackResult → S (Unit {0})
  sync_chargeback sync result =
      if result.downgraded
      then (attempt (lift (sync.sync_subscription result.order.subscription_id)) >>= λ r. pure tt)
      else pure tt

  -- what follows the transition
  abbrev pub when_charged_back :
      SyncService → Order → Result (Option ChargebackResult) → S Cancellation
  when_charged_back sync order (err e) = report (issue_for IssueEvent.cancel_payment_failed order) e
  when_charged_back sync order (ok none) = pure no_op
  when_charged_back sync order (ok (some result)) =
      if not result.transitioned
      then pure no_op
      else alert_chargeback result
        >> (sync_chargeback sync result >> pure (some result.order, result.was_paid))

  abbrev pub with_free_plan : SyncService → Order → Result Plan → S Cancellation
  with_free_plan sync order (err e) = report (issue_for IssueEvent.cancel_payment_failed order) e
  with_free_plan sync order (ok plan) =
      attempt (
        lift (
          cancel_paid_order_and_downgrade_cas platega payment_id service.now plan.id
            (plan_in_tx (some sync))))
      >>= when_charged_back sync order

  -- the branch of a chargeback
  unfoldable pub charge_back : Option SyncService → Order → S Cancellation
  charge_back none order =
      report (issue_for IssueEvent.cancel_payment_failed order) Error.chargeback_path_not_ready
  charge_back (some sync) order =
      attempt (lift (get_plan_by_name free_plan_name)) >>= with_free_plan sync order

  abbrev pub when_canceled : Order → Result Bool → S Cancellation
  when_canceled order (err e) = report (issue_for IssueEvent.cancel_payment_failed order) e
  when_canceled order (ok transitioned) =
      if transitioned then pure (some (cancel order), false) else pure no_op

  -- the branch of a cancellation: only a pending order
  unfoldable pub cancel_pending : Order → S Cancellation
  cancel_pending order =
      attempt (lift (cancel_order_cas platega payment_id (OrderStatus.pending ∷ [])))
      >>= when_canceled order

  -- by the status of the callback
  unfoldable pub cancel_by_status : Order → S Cancellation
  cancel_by_status order =
      if not (str_eq status canceled_status) && not (str_eq status chargebacked_status)
      then report (issue_for IssueEvent.invalid_payment_status order)
          Error.invalid_payment_transition
      else if str_eq status chargebacked_status
      then charge_back service.sync_svc order
      else cancel_pending order

  -- the amount, once it is read
  unfoldable pub cancel_amount : Text → String → Order → Parsed ℤ → S Cancellation
  cancel_amount amount currency order (Parsed.err e) =
      report
        (record (issue_for IssueEvent.callback_amount_invalid order) {
          currency = currency;
          payload = amount;
        })
        Error.invalid_amount
  cancel_amount amount currency order (Parsed.ok cents) =
      if ltb_ℤ cents order.amount_cents
      then report
          (record (issue_for IssueEvent.callback_amount_mismatch order) {
            amount_cents = cents;
            currency = currency;
          })
          Error.amount_mismatch
      else cancel_by_status order

  -- The callback, once its order has been looked for.
  unfoldable pub cancel_found_order : Text → String → Result Order → S Cancellation
  cancel_found_order amount currency (ok order) =
      if not (str_eq order.currency currency)
      then report
          (record (issue_for IssueEvent.callback_currency_mismatch order) { currency = currency })
          Error.currency_mismatch
      else cancel_amount amount currency order (parse_callback_amount amount)
  cancel_found_order amount currency (err e) =
      if is_order_not_found e
      then acknowledge (bare_issue IssueEvent.unknown_provider_id payment_id status) no_op
      else report (bare_issue IssueEvent.load_order_failed payment_id status) e

  -- CancelPaymentByProvider
  unfoldable pub cancel_payment_by_provider : Text → String → S Cancellation
  cancel_payment_by_provider amount currency =
      if not service.has_payment_provider
      then raise Error.payment_disabled
      else if str_eq payment_id nil_uuid
      then report (bare_issue IssueEvent.invalid_provider_id "" status) Error.invalid_provider_id
      else locked service.lock_error (
          attempt (lift (get_order_by_provider_payment_id platega payment_id))
          >>= cancel_found_order amount currency)
