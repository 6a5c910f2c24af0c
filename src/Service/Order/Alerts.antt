-- ===== src/Service/Order/Alerts.antt =====
-- A payment callback that fails is brought to the administrator.
use rs8kvn_bot.Common.{
  Option, none, some, ◌≡◌, refl, arith, String, Bool, true, false, str_eq, Bool-cases, inl, inr,
  ◌++◌, ◌∙◌, ap, sym,
}
use rs8kvn_bot.Common.Text.{Text}
use rs8kvn_bot.Common.Int.{ℤ, ltb_ℤ}
use rs8kvn_bot.Database.Models.{Order, OrderStatus, Subscription, Product}
use rs8kvn_bot.Database.Monad.{Error, Result, ok, err}
use rs8kvn_bot.Database.Products.{get_product_by_id}
use rs8kvn_bot.Database.Subscriptions.{get_by_id}
use rs8kvn_bot.Database.Orders.Confirm.{confirm_order_paid_cas}
use rs8kvn_bot.Database.Orders.Intent.{get_order_by_provider_payment_id, platega}
use rs8kvn_bot.Service.World.{World, Message, IssueEvent, PaymentIssue, admin_messages, bare_issue}
use rs8kvn_bot.Service.Platega.{Parsed, parse_callback_amount}
use rs8kvn_bot.Service.Order.{OrderService, SyncService, plan_in_tx, nil_uuid}
use rs8kvn_bot.Service.Order.Confirm.{
  PaymentConfirmation, confirmed, issue_for, after_activation, when_confirmed, confirm_with,
  with_subscription, with_product, confirm_ready, ignore_late, confirm_status, confirm_order,
  confirm_found, confirm_payment, is_product_not_found, is_subscription_not_found, confirm_amount,
}
use rs8kvn_bot.Service.Order.Payload.{
  find_payment_order, or_by_payload, order_by_callback_payload, is_order_not_found,
}

-- One more alert is handed to the bot, when the administrator can be notified, and nothing else.
abbrev pub Alerts : World → World → Type 0
Alerts w w' =
    (i : PaymentIssue) × (w'.outbox ≡ w.outbox ++ admin_messages w.admin (Message.issue i))

-- A run that fails alerts.
abbrev FailureAlerts : World → Result PaymentConfirmation × World → Type 0
FailureAlerts w (r, w') = (e : Error) → r ≡ err e → Alerts w w'

module _ (service : OrderService) (payment_id : String) where
  when_confirmed_alerts :
      (sync : SyncService) (o : Order) (p : Product) (sub : Subscription)
      (r : Result (Bool × Subscription)) (w : World)
      → FailureAlerts w (when_confirmed service payment_id sync o p sub r w)
  unfolding after_activation
  when_confirmed_alerts sync o p sub (err x) w e h = (
    record (issue_for service payment_id IssueEvent.confirm_payment_failed o) {
      telegram_id = sub.telegram_id;
      product_name = p.name;
    },
    refl,
  )
  when_confirmed_alerts sync o p sub (ok (true, s)) w e h = ground arith
  when_confirmed_alerts sync o p sub (ok (false, s)) w e h = cc

  with_subscription_alerts :
      (sync : SyncService) (cents : ℤ) (o : Order) (p : Product) (r : Result Subscription)
      (w : World)
      → FailureAlerts w (with_subscription service payment_id sync cents o p r w)
  unfolding confirm_with
  with_subscription_alerts sync cents o p (ok sub) w e h =
      let now = service.now in
      let (r, db') =
        confirm_order_paid_cas o.id now now sub p (plan_in_tx (some sync)) cents w.db in
      when_confirmed_alerts sync o p sub r (record w { db = db' }) e h
  with_subscription_alerts sync cents o p (err x) w e h =
      elim (Bool-cases (is_subscription_not_found x)) [
        | inl missing ↦ ground arith
        | inr failed ↦
            (issue_for service payment_id IssueEvent.load_order_subscription_failed o, ground arith)
      ]

  with_product_alerts :
      (sync : SyncService) (cents : ℤ) (o : Order) (r : Result Product) (w : World)
      → FailureAlerts w (with_product service payment_id sync cents o r w)
  with_product_alerts sync cents o (ok p) w e h =
      let (r, db') = get_by_id o.subscription_id w.db in
      with_subscription_alerts sync cents o p r (record w { db = db' }) e h
  with_product_alerts sync cents o (err x) w e h = elim (Bool-cases (is_product_not_found x)) [
    | inl missing ↦ ground arith
    | inr failed ↦
        (issue_for service payment_id IssueEvent.load_order_product_failed o, ground arith)
  ]

  ready_alerts :
      (sync : Option SyncService) (cents : ℤ) (o : Order) (w : World)
      → FailureAlerts w (confirm_ready service payment_id sync cents o w)
  unfolding confirm_ready
  ready_alerts none cents o w e h =
      (issue_for service payment_id IssueEvent.payment_sync_not_ready o, refl)
  ready_alerts (some sync) cents o w e h =
      let (r, db') = get_product_by_id o.product_id w.db in
      with_product_alerts sync cents o r (record w { db = db' }) e h

  -- no order has a status that is refused without an alert
  status_alerts :
      (cents : ℤ) (o : Order) (w : World)
      → FailureAlerts w (confirm_status service payment_id cents o w)
  unfolding confirm_status ignore_late
  status_alerts cents o w e h =
      let ready : confirm_status service payment_id cents o w
          ≡ confirm_ready service payment_id service.sync_svc cents o w =
        by_status o.status refl in
      rw ready (ready_alerts service.sync_svc cents o w e (ap (λ x. x.0) (sym ready) ∙ h))
    where
      by_status :
          (s : OrderStatus)
          → o.status ≡ s
          → confirm_status service payment_id cents o w
            ≡ confirm_ready service payment_id service.sync_svc cents o w
      by_status OrderStatus.pending k = ground arith
      by_status OrderStatus.paid k = ground arith
      by_status OrderStatus.expired k = ground arith
      by_status OrderStatus.canceled k = ground arith

  amount_alerts :
      (amount : Text) (currency : String) (o : Order) (r : Parsed ℤ) (w : World)
      → FailureAlerts w (confirm_amount service payment_id amount currency o r w)
  unfolding confirm_amount
  amount_alerts amount currency o (Parsed.err x) w e h = (
    record (issue_for service payment_id IssueEvent.callback_amount_invalid o) {
      currency = currency;
      payload = amount;
    },
    refl,
  )
  amount_alerts amount currency o (Parsed.ok cents) w e h =
      elim (Bool-cases (ltb_ℤ cents o.amount_cents)) [
        | inl low ↦ (
          record (issue_for service payment_id IssueEvent.callback_amount_mismatch o) {
            amount_cents = cents;
            currency = currency;
          },
          ground arith,
        )
        | inr high ↦ let (i, sent) = status_alerts cents o w e (ground arith) in (i, ground arith)
      ]

  found_alerts :
      (amount : Text) (currency : String) (r : Result Order) (w : World)
      → FailureAlerts w (confirm_found service payment_id amount currency r w)
  unfolding confirm_found confirm_order
  found_alerts amount currency (ok o) w e h = elim (Bool-cases (str_eq o.currency currency)) [
    | inr other ↦ (
      record (issue_for service payment_id IssueEvent.callback_currency_mismatch o) {
        currency = currency;
      },
      ground arith,
    )
    | inl same ↦
        let (i, sent) =
          amount_alerts amount currency o (parse_callback_amount amount) w e (ground arith) in
        (i, ground arith)
  ]
  found_alerts amount currency (err x) w e h = elim (Bool-cases (is_order_not_found x)) [
    | inl missing ↦ ground arith
    | inr failed ↦ (bare_issue IssueEvent.load_order_failed payment_id confirmed, ground arith)
  ]

-- a run that hands over nothing
abbrev Silent : {A : Type 0} → World → Result A × World → Type 0
Silent w (r, w') = (w'.outbox ≡ w.outbox) × (w'.admin ≡ w.admin)

payload-Silent :
    (payload : Text) (p : String) (w : World) → Silent w (order_by_callback_payload payload p w)
unfolding order_by_callback_payload
payload-Silent payload p w = (ground arith, ground arith)

by_payload-Silent :
    (payload : Text) (p : String) (r : Result Order) (w : World)
    → Silent w (or_by_payload payload p r w)
by_payload-Silent payload p (ok o) w = (refl, refl)
by_payload-Silent payload p (err e) w =
    let (sent, same) = payload-Silent payload p w in (ground arith, ground arith)

find-Silent : (p : String) (payload : Text) (w : World) → Silent w (find_payment_order p payload w)
unfolding find_payment_order
find-Silent p payload w =
    let (r, db') = get_order_by_provider_payment_id platega p w.db in
    by_payload-Silent payload p r (record w { db = db' })

-- A payment callback that fails, once payments are enabled and the lock of the payment is acquired,
-- hands exactly one payment alert to the administrator's bot when a bot and a positive administrator
-- id are configured, and none otherwise; it sends no other message. (Whether the bot delivers the
-- alert is only logged by the code and is no part of the statement.)
pub confirm_payment-Alerts :
    (service : OrderService) (payment_id : String) (payload amount : Text) (currency : String)
    (w : World) (e : Error)
    → service.has_payment_provider ≡ true
    → service.lock_error ≡ none
    → (confirm_payment service payment_id payload amount currency w).0 ≡ err e
    → Alerts w (confirm_payment service payment_id payload amount currency w).1
unfolding confirm_payment
confirm_payment-Alerts service payment_id payload amount currency w e enabled free h =
    elim (Bool-cases (str_eq payment_id nil_uuid)) [
      | inl nil ↦ (bare_issue IssueEvent.invalid_provider_id "" confirmed, ground arith)
      | inr id ↦
          let (r, w') = find_payment_order payment_id payload w in
          let (i, sent) = found_alerts service payment_id amount currency r w' e (ground arith) in
          let (sent', same) = find-Silent payment_id payload w in (i, ground arith)
    ]
