-- ===== src/Service/Order/Once.antt =====
-- A payment activates once: the callbacks of one payment after the one that activated.
pub mod Lookup
pub mod Trace
use rs8kvn_bot.Common.{
  ℕ, suc, Option, none, some, ◌≡◌, refl, arith, String, Bool, true, false, not, ◌&&◌, ◌||◌, str_eq,
  if◌then◌else◌, Bool-cases, Option-cases, inl, inr, ◌∙◌, ap, sym,
}
use mathlib.Core.Path.{subst}
use rs8kvn_bot.Common.Text.{Text}
use rs8kvn_bot.Common.Int.{ℤ, ltb_ℤ}
use rs8kvn_bot.Database.Models.{
  Time, Order, OrderStatus, Subscription, Product, is_paid, is_expired, is_pending,
}
use rs8kvn_bot.Database.Monad.{Db, Error, Result, ok, err}
use rs8kvn_bot.Database.Products.{get_product_by_id}
use rs8kvn_bot.Database.Subscriptions.{get_by_id}
use rs8kvn_bot.Database.Orders.Confirm.{confirm_order_paid_cas}
use rs8kvn_bot.Database.Orders.Confirm.Laws.{activated}
use rs8kvn_bot.Service.World.{S, World, lift, attempt}
use rs8kvn_bot.Service.Platega.{Parsed, parse_callback_amount}
use rs8kvn_bot.Service.Order.{OrderService, SyncService, plan_in_tx, nil_uuid}
use rs8kvn_bot.Service.Order.Confirm.{
  PaymentConfirmation, after_activation, when_confirmed, confirm_with, with_subscription,
  with_product, confirm_ready, ignore_late, confirm_status, confirm_order, confirm_found,
  confirm_payment, confirm_amount, mirror_order_from_subscription_after_cas, renews,
}
use rs8kvn_bot.Service.Order.Payload.{find_payment_order}
use rs8kvn_bot.Database.Orders.Confirm.Laws.{activated_orders, confirm_once}
use rs8kvn_bot.Service.Order.Once.Trace.{Transition, found-Transition}
use rs8kvn_bot.Service.Order.Once.Lookup.{Points, find-Points, paid-Points, lookup-eq}
use rs8kvn_bot.Service.Order.Guards.{activates}
use rs8kvn_bot.Service.Order.Lifecycle.{OnlyBindings, HasBindings}

module _ (service : OrderService) (payment_id : String) where
  run_found :
      (payload amount : Text) (currency : String) (w : World)
      → activates (confirm_payment service payment_id payload amount currency w).0 ≡ true
      → confirm_payment service payment_id payload amount currency w
        ≡ confirm_found service payment_id amount currency
            (find_payment_order payment_id payload w).0
            (find_payment_order payment_id payload w).1
  unfolding confirm_payment
  run_found payload amount currency w h = ground arith

  -- what an activation went through, for any run
  abbrev pub Went : Result Order → World → World → Type 0
  Went r w w' = (o : Order) × (r ≡ ok o) × Transition service.now o w w'

  -- An activation: the order that was found, and its transition.
  confirm_payment-Transition :
      (payload amount : Text) (currency : String) (w : World)
      → HasBindings service.sync_svc
      → activates (confirm_payment service payment_id payload amount currency w).0 ≡ true
      → Went
          (find_payment_order payment_id payload w).0
          (find_payment_order payment_id payload w).1
          (confirm_payment service payment_id payload amount currency w).1
  confirm_payment-Transition payload amount currency w only h =
      let (r, w') = find_payment_order payment_id payload w in
      let run = run_found payload amount currency w h in
      let went : Went r w' (confirm_found service payment_id amount currency r w').1 =
        found-Transition service payment_id amount currency r w' only
          (ap (λ x. activates (x.0)) (sym run) ∙ h) in
      subst (λ x. Went r w' (x.1)) (sym run) went

-- After an activation the payment's row has the id of the order that was activated.
activated-Points :
    (service : OrderService) (p : String) (payload amount : Text) (currency : String) (w : World)
    → HasBindings service.sync_svc
    → activates (confirm_payment service p payload amount currency w).0 ≡ true
    → (o : Order) × Points p o.id
        (confirm_payment service p payload amount currency w).1.db.tables.orders
      × Transition service.now o
          (find_payment_order p payload w).1
          (confirm_payment service p payload amount currency w).1
activated-Points service p payload amount currency w only h =
    let (o, e, t) = confirm_payment-Transition service p payload amount currency w only h in
    let w' = (find_payment_order p payload w).1 in
    let now = service.now in
    let (expiry, orders) =
      activated_orders o.id now t.sub t.product (plan_in_tx (some t.sync)) t.cents t.db
        t.sync-OnlyBindings.apply_only t.did_activate in
    let found : Points p o.id t.db.tables.orders =
      rw t.same_tables (find-Points p payload o w w' (ap (λ x. (x, w')) e)) in
    (
      o,
      rw (t.orders_after, orders)
          (paid-Points p o.id o.id now now expiry t.cents t.db.tables.orders found),
      t,
    )

-- A payment is activated once: after a callback that activated, no other callback of the same
-- payment activates, whatever payload, amount and currency it carries, whenever it comes, whichever
-- statements fail, and whatever has happened to the other tables. (The synchronization of either
-- call writes neither orders nor subscriptions.)
pub confirm_payment_once :
    (service later : OrderService) (p : String) (payload payload' amount amount' : Text)
    (currency currency' : String) (w w' : World)
    → HasBindings service.sync_svc
    → HasBindings later.sync_svc
    → activates (confirm_payment service p payload amount currency w).0 ≡ true
    → w'.db.tables.orders ≡ (confirm_payment service p payload amount currency w).1.db.tables.orders
    → activates (confirm_payment later p payload' amount' currency' w').0 ≡ false
confirm_payment_once service later p payload payload' amount amount' currency currency' w w' only
      only' h e =
    elim (Bool-cases (activates (confirm_payment later p payload' amount' currency' w').0)) [
      | inr quiet ↦ quiet
      | inl again ↦
          let (o, points, t) = activated-Points service p payload amount currency w only h in
          let (o', found', t') =
            confirm_payment-Transition later p payload' amount' currency' w' only' again in
          let (same, tables) = lookup-eq p payload' o.id o' w' (rw e points) found' in
          let (quiet, kept) =
            confirm_once o.id service.now later.now t.sub t'.sub t.product t'.product
              (plan_in_tx (some t.sync)) (plan_in_tx (some t'.sync)) t.cents t'.cents t.db t'.db
              t.sync-OnlyBindings.apply_only t.did_activate
              (ap (λ x. x.orders) (t'.same_tables ∙ tables) ∙ e ∙ t.orders_after) in
          let apply = plan_in_tx (some t'.sync) in
          let clash : true ≡ false =
            sym t'.did_activate
            ∙ ap
                (λ i.
                  activated
                    (confirm_order_paid_cas i later.now later.now t'.sub t'.product apply t'.cents
                      t'.db).0)
                same
            ∙ quiet in
          cc
    ]
