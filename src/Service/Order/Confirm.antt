-- ===== src/Service/Order/Confirm.antt =====
-- internal/service/order.go: orderByCallbackPayload, mirrorOrderFromSubscriptionAfterCAS and
-- confirmPayment. Under the lock of the payment; the log and the metrics are left out.
use rs8kvn_bot.Common.{
  ℕ, ◌+◌, ◌*◌, Bool, true, false, not, ◌&&◌, ◌||◌, Option, none, some, String, leb, if◌then◌else◌,
  str_eq,
}
use rs8kvn_bot.Common.Int.{ℤ, pos, ltb_ℤ}
use rs8kvn_bot.Common.Text.{Text}
use rs8kvn_bot.Database.Models.{
  Time, minute, Subscription, Product, Order, OrderStatus, is_pending, is_paid, is_expired,
}
use rs8kvn_bot.Database.Monad.{Error, Result, ok, err}
use rs8kvn_bot.Database.Products.{get_product_by_id}
use rs8kvn_bot.Database.Subscriptions.{get_by_id}
use rs8kvn_bot.Database.Orders.Confirm.{confirm_order_paid_cas}
use rs8kvn_bot.Service.World.{
  S, Message, IssueEvent, PaymentIssue, pure, raise, lift, attempt, ◌>>=◌, ◌>>◌, send, notify_admin,
  bare_issue, order_issue, report, acknowledge,
}
use rs8kvn_bot.Service.Platega.{Parsed, parse_callback_amount}
use rs8kvn_bot.Service.Order.{OrderService, SyncService, plan_in_tx, nil_uuid}
use rs8kvn_bot.Service.Order.Payload.{is_order_not_found, find_payment_order}

-- PaymentConfirmation
pub record PaymentConfirmation : Type 0 where
  pub order : Option Order
  pub activated : Bool
  pub is_renewal : Bool

abbrev pub confirmed : String
confirmed = "CONFIRMED"

-- the answer of a callback that activates nothing
abbrev pub inactive : Option Order → PaymentConfirmation
inactive o = record { order = o; activated = false; is_renewal = false }

abbrev pub is_product_not_found : Error → Bool
is_product_not_found Error.product_not_found = true
is_product_not_found Error.record_not_found = true
is_product_not_found _ = false

abbrev pub is_subscription_not_found : Error → Bool
is_subscription_not_found Error.subscription_not_found = true
is_subscription_not_found Error.record_not_found = true
is_subscription_not_found _ = false

abbrev copy_expiry : Option Time → Order → Order
copy_expiry none o = o
copy_expiry (some t) o = record o { expires_at = some t }

-- mirrorOrderFromSubscriptionAfterCAS
unfoldable pub mirror_order_from_subscription_after_cas : Order → Subscription → Time → Order
mirror_order_from_subscription_after_cas order sub now = record (copy_expiry sub.expires_at order) {
  status = OrderStatus.paid;
  paid_at = some now;
  activated_at = some now;
}

abbrev pub has_product : Option ℕ → Bool
has_product none = false
has_product (some p) = true

-- `sub.PricePaidCents > 0 || sub.ProductID != nil`
abbrev pub renews : Subscription → Bool
renews sub = ltb_ℤ (pos 0) sub.price_paid_cents || has_product sub.product_id

-- `!now.After(order.PaymentExpiresAt.Add(5 * time.Minute))`, for an expired order
abbrev pub within_settlement_grace : Time → Order → Bool
within_settlement_grace now order = elim order.payment_expires_at [
  | none ↦ false
  | some t ↦ is_expired order.status && leb now (t + 5 * minute)
]

abbrev pub is_canceled : OrderStatus → Bool
is_canceled OrderStatus.canceled = true
is_canceled _ = false

-- what follows lockPayment
abbrev pub locked : {A : Type 0} → Option Error → S A → S A
locked none m = m
locked (some e) m = raise e

module _ (service : OrderService) (payment_id : String) where
  abbrev pub issue_for : IssueEvent → Order → PaymentIssue
  issue_for event order = order_issue event payment_id confirmed order

  -- What follows an activation: the cache, the administrator, and the synchronization, whose error
  -- is logged.
  unfoldable pub after_activation :
      SyncService → Order → Subscription → Product → Bool → S PaymentConfirmation
  after_activation sync order sub product renewal = do
    let answer : PaymentConfirmation = record {
      order = some order;
      activated = true;
      is_renewal = renewal;
    }
    if service.has_sub_svc && not (str_eq sub.subscription_id "")
        then send (Message.invalidate_by_sub_id sub.subscription_id)
        else pure tt
    notify_admin (Message.admin_paid sub order product renewal)
    _ ← attempt (lift (sync.sync_subscription sub.id))
    pure answer

  abbrev pub when_confirmed :
      SyncService
      → Order
      → Product
      → Subscription
      → Result (Bool × Subscription)
      → S PaymentConfirmation
  when_confirmed sync order product sub (err e) =
      report
        (record (issue_for IssueEvent.confirm_payment_failed order) {
          telegram_id = sub.telegram_id;
          product_name = product.name;
        })
        e
  when_confirmed sync order product sub (ok (activated, renewed)) =
      if activated
      then after_activation sync
          (mirror_order_from_subscription_after_cas order renewed service.now) renewed product
          (renews sub)
      else pure (record { order = some order; activated = false; is_renewal = renews sub })

  -- the transition, once the product and the subscription are loaded
  unfoldable pub confirm_with :
      SyncService → ℤ → Order → Product → Subscription → S PaymentConfirmation
  confirm_with sync cents order product sub =
      let now = service.now in
      attempt
        (lift (confirm_order_paid_cas order.id now now sub product (plan_in_tx (some sync)) cents))
      >>= when_confirmed sync order product sub

  abbrev pub with_subscription :
      SyncService → ℤ → Order → Product → Result Subscription → S PaymentConfirmation
  with_subscription sync cents order product (ok sub) = confirm_with sync cents order product sub
  with_subscription sync cents order product (err e) =
      let issue = issue_for IssueEvent.load_order_subscription_failed order in
      if is_subscription_not_found e then acknowledge issue (inactive none) else report issue e

  abbrev pub with_product : SyncService → ℤ → Order → Result Product → S PaymentConfirmation
  with_product sync cents order (ok product) =
      attempt (lift (get_by_id order.subscription_id))
      >>= with_subscription sync cents order product
  with_product sync cents order (err e) =
      let issue = issue_for IssueEvent.load_order_product_failed order in
      if is_product_not_found e then acknowledge issue (inactive none) else report issue e

  -- the product, the subscription and the transition, unless no synchronization is configured
  unfoldable pub confirm_ready : Option SyncService → ℤ → Order → S PaymentConfirmation
  confirm_ready none cents order =
      report (issue_for IssueEvent.payment_sync_not_ready order) Error.payment_sync_not_ready
  confirm_ready (some sync) cents order =
      attempt (lift (get_product_by_id order.product_id)) >>= with_product sync cents order

  -- the Telegram id of the alert, when the subscription can be read
  abbrev pub telegram_of : Result Subscription → ℤ
  telegram_of (ok sub) = sub.telegram_id
  telegram_of (err e) = pos 0

  -- a callback for an order that has expired or is canceled
  unfoldable pub ignore_late : Order → S PaymentConfirmation
  ignore_late order = attempt (lift (get_by_id order.subscription_id)) >>= λ found.
      acknowledge
        (record (issue_for IssueEvent.late_confirmed_callback order) {
          telegram_id = telegram_of found;
        })
        (inactive (some order))

  -- by the status of the order
  unfoldable pub confirm_status : ℤ → Order → S PaymentConfirmation
  confirm_status cents order =
      if is_paid order.status
      then pure (inactive (some order))
      else if (is_expired order.status || is_canceled order.status)
          && not (within_settlement_grace service.now order)
      then ignore_late order
      else if not (is_pending order.status) && not (is_expired order.status)
      then raise Error.invalid_payment_transition
      else confirm_ready service.sync_svc cents order

  -- the amount, once it is read
  unfoldable pub confirm_amount : Text → String → Order → Parsed ℤ → S PaymentConfirmation
  confirm_amount amount currency order (Parsed.err e) =
      report
        (record (issue_for IssueEvent.callback_amount_invalid order) {
          currency = currency;
          payload = amount;
        })
        Error.invalid_amount
  confirm_amount amount currency order (Parsed.ok cents) =
      if ltb_ℤ cents order.amount_cents
      then report
          (record (issue_for IssueEvent.callback_amount_mismatch order) {
            amount_cents = cents;
            currency = currency;
          })
          Error.amount_mismatch
      else confirm_status cents order

  unfoldable pub confirm_order : Text → String → Order → S PaymentConfirmation
  confirm_order amount currency order =
      if not (str_eq order.currency currency)
      then report
          (record (issue_for IssueEvent.callback_currency_mismatch order) { currency = currency })
          Error.currency_mismatch
      else confirm_amount amount currency order (parse_callback_amount amount)

  -- The callback, once its order has been looked for.
  unfoldable pub confirm_found : Text → String → Result Order → S PaymentConfirmation
  confirm_found amount currency (ok order) = confirm_order amount currency order
  confirm_found amount currency (err e) =
      if is_order_not_found e
      then acknowledge (bare_issue IssueEvent.unknown_provider_id payment_id confirmed)
          (inactive none)
      else report (bare_issue IssueEvent.load_order_failed payment_id confirmed) e

  -- confirmPayment
  unfoldable pub confirm_payment : Text → Text → String → S PaymentConfirmation
  confirm_payment payload amount currency =
      if not service.has_payment_provider
      then raise Error.payment_disabled
      else locked service.lock_error (
          if str_eq payment_id nil_uuid
          then report (bare_issue IssueEvent.invalid_provider_id "" confirmed)
              Error.invalid_provider_id
          else attempt (find_payment_order payment_id payload) >>= confirm_found amount currency)
