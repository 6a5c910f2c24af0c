-- ===== src/Service/Order/Cancel/Runs.antt =====
-- A cancellation or chargeback acts on the database by operations of the order store.
use rs8kvn_bot.Common.{Option, none, some, arith, String, Bool, not, ◌&&◌, str_eq, [], ◌∷◌}
use rs8kvn_bot.Common.Text.{Text}
use rs8kvn_bot.Common.Int.{ℤ, ltb_ℤ}
use rs8kvn_bot.Database.Models.{Order, OrderStatus, Plan, ChargebackResult}
use rs8kvn_bot.Database.Monad.{Result, ok, err}
use rs8kvn_bot.Database.Products.{get_product_by_id}
use rs8kvn_bot.Database.Subscriptions.{get_by_id, get_plan_by_name, free_plan_name}
use rs8kvn_bot.Database.Orders.Chargeback.{cancel_paid_order_and_downgrade_cas, cancel_order_cas}
use rs8kvn_bot.Database.Orders.Intent.{get_order_by_provider_payment_id, platega}
use rs8kvn_bot.Database.Orders.Lifecycle.Reach.{
  here, next, others, charge_back as charge_back_step, cancel as cancel_step,
}
use rs8kvn_bot.Service.World.{lift, attempt, pure}
use rs8kvn_bot.Service.World.Runs.{Runs, Runs-attempt, Runs-bind, Runs-if, Runs-read}
use rs8kvn_bot.Service.Platega.{Parsed, parse_callback_amount}
use rs8kvn_bot.Service.Order.{OrderService, SyncService, plan_in_tx, nil_uuid}
use rs8kvn_bot.Service.Order.Payload.{is_order_not_found}
use rs8kvn_bot.Service.Order.Lifecycle.{
  OnlyBindings, HasBindings, locked-Runs, found_by_payment-Runs,
}
use rs8kvn_bot.Service.Order.Cancel.{
  Cancellation, canceled_status, chargebacked_status, load_chargeback_alert_context,
  alert_chargeback, sync_chargeback, when_charged_back, with_free_plan, charge_back, when_canceled,
  cancel_pending, cancel_by_status, cancel_amount, cancel_found_order, cancel_payment_by_provider,
}

plan-Runs : (name : String) → Runs (lift (get_plan_by_name name))
unfolding get_plan_by_name
plan-Runs name = Runs-read (get_plan_by_name name) (λ db. ground arith)

module _ (service : OrderService) (payment_id status : String) where
  alert-Runs : (r : ChargebackResult) → Runs (alert_chargeback service payment_id status r)
  unfolding alert_chargeback load_chargeback_alert_context get_by_id get_product_by_id
  alert-Runs r w = next here (others _ (ground arith))

  sync-Runs :
      (sync : SyncService) (r : ChargebackResult)
      → OnlyBindings sync
      → Runs (sync_chargeback service payment_id status sync r)
  unfolding sync_chargeback
  sync-Runs sync r only w =
      next here (others _ (ground (arith, only.sync_only r.order.subscription_id w.db)))

  charged_back-Runs :
      (sync : SyncService) (o : Order) (r : Result (Option ChargebackResult))
      → OnlyBindings sync
      → Runs (when_charged_back service payment_id status sync o r)
  charged_back-Runs sync o (err e) only = λ w. here
  charged_back-Runs sync o (ok none) only = λ w. here
  charged_back-Runs sync o (ok (some r)) only =
      Runs-if (not r.transitioned) _ _ (λ w. here)
        (Runs-bind {B = Cancellation} (alert_chargeback service payment_id status r) _
          (alert-Runs r)
          (λ u.
            Runs-bind {B = Cancellation} (sync_chargeback service payment_id status sync r)
              (λ u. pure (some r.order, r.was_paid)) (sync-Runs sync r only) (λ v. λ w. here)))

  free_plan-Runs :
      (sync : SyncService) (o : Order) (r : Result Plan)
      → OnlyBindings sync
      → Runs (with_free_plan service payment_id status sync o r)
  free_plan-Runs sync o (err e) only = λ w. here
  free_plan-Runs sync o (ok plan) only =
      let apply = plan_in_tx (some sync) in
      let m = cancel_paid_order_and_downgrade_cas platega payment_id service.now plan.id apply in
      Runs-bind {B = Cancellation} (attempt (lift m))
        (when_charged_back service payment_id status sync o)
        (Runs-attempt (lift m) (λ w.
          next here
            (charge_back_step platega payment_id service.now plan.id apply only.apply_only)))
        (λ r. charged_back-Runs sync o r only)

  charge_back-Runs :
      (sync : Option SyncService) (o : Order)
      → HasBindings sync
      → Runs (charge_back service payment_id status sync o)
  unfolding charge_back
  charge_back-Runs none o only = λ w. here
  charge_back-Runs (some sync) o only =
      Runs-bind {B = Cancellation} (attempt (lift (get_plan_by_name free_plan_name)))
        (with_free_plan service payment_id status sync o)
        (Runs-attempt (lift (get_plan_by_name free_plan_name)) (plan-Runs free_plan_name))
        (λ r. free_plan-Runs sync o r only)

  when_canceled-Runs :
      (o : Order) (r : Result Bool) → Runs (when_canceled service payment_id status o r)
  when_canceled-Runs o (err e) = λ w. here
  when_canceled-Runs o (ok b) = Runs-if b _ _ (λ w. here) (λ w. here)

  cancel_pending-Runs : (o : Order) → Runs (cancel_pending service payment_id status o)
  unfolding cancel_pending
  cancel_pending-Runs o =
      let m = cancel_order_cas platega payment_id (OrderStatus.pending ∷ []) in
      Runs-bind {B = Cancellation} (attempt (lift m)) (when_canceled service payment_id status o)
        (Runs-attempt (lift m)
          (λ w. next here (cancel_step platega payment_id (OrderStatus.pending ∷ []))))
        (when_canceled-Runs o)

  by_status-Runs :
      (o : Order)
      → HasBindings service.sync_svc
      → Runs (cancel_by_status service payment_id status o)
  unfolding cancel_by_status
  by_status-Runs o only =
      Runs-if (not (str_eq status canceled_status) && not (str_eq status chargebacked_status)) _ _
        (λ w. here)
        (Runs-if (str_eq status chargebacked_status) _ _ (charge_back-Runs service.sync_svc o only)
          (cancel_pending-Runs o))

  amount-Runs :
      (amount : Text) (currency : String) (o : Order) (r : Parsed ℤ)
      → HasBindings service.sync_svc
      → Runs (cancel_amount service payment_id status amount currency o r)
  unfolding cancel_amount
  amount-Runs amount currency o (Parsed.err e) only = λ w. here
  amount-Runs amount currency o (Parsed.ok cents) only =
      Runs-if (ltb_ℤ cents o.amount_cents) _ _ (λ w. here) (by_status-Runs o only)

  found-Runs :
      (amount : Text) (currency : String) (r : Result Order)
      → HasBindings service.sync_svc
      → Runs (cancel_found_order service payment_id status amount currency r)
  unfolding cancel_found_order
  found-Runs amount currency (ok o) only =
      Runs-if (not (str_eq o.currency currency)) _ _ (λ w. here)
        (amount-Runs amount currency o (parse_callback_amount amount) only)
  found-Runs amount currency (err e) only =
      Runs-if (is_order_not_found e) _ _ (λ w. here) (λ w. here)

  pub cancel_payment-Runs :
      (amount : Text) (currency : String)
      → HasBindings service.sync_svc
      → Runs (cancel_payment_by_provider service payment_id status amount currency)
  unfolding cancel_payment_by_provider
  cancel_payment-Runs amount currency only =
      Runs-if (not service.has_payment_provider) _ _ (λ w. here)
        (Runs-if (str_eq payment_id nil_uuid) _ _ (λ w. here)
          (locked-Runs service payment_id service.lock_error _ (
            Runs-bind {B = Cancellation}
              (attempt (lift (get_order_by_provider_payment_id platega payment_id)))
              (cancel_found_order service payment_id status amount currency)
              (Runs-attempt (lift (get_order_by_provider_payment_id platega payment_id))
                (found_by_payment-Runs payment_id))
              (λ r. found-Runs amount currency r only))))
