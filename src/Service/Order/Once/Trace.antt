-- ===== src/Service/Order/Once/Trace.antt =====
-- An activation, traced back to the transition of the order store.
use rs8kvn_bot.Common.{
  Option, none, some, ◌≡◌, refl, arith, String, Bool, true, false, str_eq, Bool-cases, inl, inr,
  ◌∙◌, ap, sym,
}
use rs8kvn_bot.Common.Text.{Text}
use rs8kvn_bot.Common.Int.{ℤ}
use rs8kvn_bot.Database.Models.{Time, Order, Subscription, Product}
use rs8kvn_bot.Database.Monad.{Db, Result, ok, err}
use rs8kvn_bot.Database.Products.{get_product_by_id}
use rs8kvn_bot.Database.Subscriptions.{get_by_id}
use rs8kvn_bot.Database.Orders.Confirm.{confirm_order_paid_cas}
use rs8kvn_bot.Database.Orders.Confirm.Laws.{activated}
use rs8kvn_bot.Service.World.{World}
use rs8kvn_bot.Service.Platega.{Parsed, parse_callback_amount}
use rs8kvn_bot.Service.Order.{OrderService, SyncService, plan_in_tx}
use rs8kvn_bot.Service.Order.Confirm.{
  after_activation, when_confirmed, confirm_with, with_subscription, with_product, confirm_ready,
  ignore_late, confirm_status, confirm_order, confirm_found, confirm_amount,
}
use rs8kvn_bot.Service.Order.Guards.{activates}
use rs8kvn_bot.Service.Order.Lifecycle.{OnlyBindings, HasBindings}

-- The transition that an activation went through.
pub record Transition (now : Time) (o : Order) (w w' : World) : Type 0 where
  pub sync : SyncService
  pub sync-OnlyBindings : OnlyBindings sync
  pub cents : ℤ
  pub product : Product
  pub sub : Subscription
  pub db : Db
  pub same_tables : db.tables ≡ w.db.tables
  pub did_activate :
      activated
        (confirm_order_paid_cas o.id now now sub product (plan_in_tx (some sync)) cents db).0
      ≡ true
  pub orders_after :
      w'.db.tables.orders
      ≡ (confirm_order_paid_cas o.id now now sub product
          (plan_in_tx (some sync))
          cents
          db).1.tables.orders

module _ (service : OrderService) (payment_id : String) where
  when_confirmed-activates :
      (sync : SyncService) (o : Order) (p : Product) (sub : Subscription)
      (r : Result (Bool × Subscription)) (w : World)
      → OnlyBindings sync
      → activates (when_confirmed service payment_id sync o p sub r w).0 ≡ true
      → (activated r ≡ true)
        × ((when_confirmed service payment_id sync o p sub r w).1.db.tables.orders
            ≡ w.db.tables.orders)
  unfolding after_activation
  when_confirmed-activates sync o p sub (err e) w only h = cc
  when_confirmed-activates sync o p sub (ok (false, s)) w only h = cc
  when_confirmed-activates sync o p sub (ok (true, s)) w only h =
      (refl, ground (arith, only.sync_only s.id w.db))

  confirm_with-Transition :
      (sync : SyncService) (cents : ℤ) (o : Order) (p : Product) (sub : Subscription) (w : World)
      → OnlyBindings sync
      → activates (confirm_with service payment_id sync cents o p sub w).0 ≡ true
      → Transition service.now o w (confirm_with service payment_id sync cents o p sub w).1
  unfolding confirm_with
  confirm_with-Transition sync cents o p sub w only h =
      let now = service.now in
      let (r, db') =
        confirm_order_paid_cas o.id now now sub p (plan_in_tx (some sync)) cents w.db in
      let (did, orders) = when_confirmed-activates sync o p sub r (record w { db = db' }) only h in
      record {
        sync = sync;
        sync-OnlyBindings = only;
        cents = cents;
        product = p;
        sub = sub;
        db = w.db;
        same_tables = refl;
        did_activate = did;
        orders_after = orders;
      }

  -- the same transition after a statement that only reads
  moved :
      (o : Order) (w w' end : World)
      → w'.db.tables ≡ w.db.tables
      → Transition service.now o w' end
      → Transition service.now o w end
  moved o w w' end e t = record {
    sync = t.sync;
    sync-OnlyBindings = t.sync-OnlyBindings;
    cents = t.cents;
    product = t.product;
    sub = t.sub;
    db = t.db;
    same_tables = t.same_tables ∙ e;
    did_activate = t.did_activate;
    orders_after = t.orders_after;
  }

  with_subscription-Transition :
      (sync : SyncService) (cents : ℤ) (o : Order) (p : Product) (r : Result Subscription)
      (w : World)
      → OnlyBindings sync
      → activates (with_subscription service payment_id sync cents o p r w).0 ≡ true
      → Transition service.now o w (with_subscription service payment_id sync cents o p r w).1
  with_subscription-Transition sync cents o p (ok sub) w only h =
      confirm_with-Transition sync cents o p sub w only h
  with_subscription-Transition sync cents o p (err e) w only h = absurd (ground arith)

  with_product-Transition :
      (sync : SyncService) (cents : ℤ) (o : Order) (r : Result Product) (w : World)
      → OnlyBindings sync
      → activates (with_product service payment_id sync cents o r w).0 ≡ true
      → Transition service.now o w (with_product service payment_id sync cents o r w).1
  unfolding get_by_id
  with_product-Transition sync cents o (ok p) w only h =
      let (r, db') = get_by_id o.subscription_id w.db in
      moved o w (record w { db = db' }) _ (ground arith)
        (with_subscription-Transition sync cents o p r (record w { db = db' }) only h)
  with_product-Transition sync cents o (err e) w only h = absurd (ground arith)

  ready-Transition :
      (sync : Option SyncService) (cents : ℤ) (o : Order) (w : World)
      → HasBindings sync
      → activates (confirm_ready service payment_id sync cents o w).0 ≡ true
      → Transition service.now o w (confirm_ready service payment_id sync cents o w).1
  unfolding confirm_ready get_product_by_id
  ready-Transition none cents o w only h = cc
  ready-Transition (some sync) cents o w only h =
      let (r, db') = get_product_by_id o.product_id w.db in
      moved o w (record w { db = db' }) _ (ground arith)
        (with_product-Transition sync cents o r (record w { db = db' }) only h)

  status_ready :
      (cents : ℤ) (o : Order) (w : World)
      → activates (confirm_status service payment_id cents o w).0 ≡ true
      → confirm_status service payment_id cents o w
        ≡ confirm_ready service payment_id service.sync_svc cents o w
  unfolding confirm_status ignore_late
  status_ready cents o w h = ground arith

  amount_ready :
      (amount : Text) (currency : String) (o : Order) (r : Parsed ℤ) (w : World)
      → activates (confirm_amount service payment_id amount currency o r w).0 ≡ true
      → (cents : ℤ) × (confirm_amount service payment_id amount currency o r w
          ≡ confirm_ready service payment_id service.sync_svc cents o w)
  unfolding confirm_amount
  amount_ready amount currency o (Parsed.err e) w h = cc
  amount_ready amount currency o (Parsed.ok cents) w h =
      (cents, ground (arith, status_ready cents o w))

  pub found-Transition :
      (amount : Text) (currency : String) (r : Result Order) (w : World)
      → HasBindings service.sync_svc
      → activates (confirm_found service payment_id amount currency r w).0 ≡ true
      → (o : Order) × (r ≡ ok o)
        × Transition service.now o w (confirm_found service payment_id amount currency r w).1
  unfolding confirm_found confirm_order
  found-Transition amount currency (err e) w only h = absurd (ground arith)
  found-Transition amount currency (ok o) w only h =
      elim (Bool-cases (str_eq o.currency currency)) [
        | inr other ↦ absurd (ground arith)
        | inl same ↦
            let (cents, ready) =
              amount_ready amount currency o (parse_callback_amount amount) w (ground arith) in
            let run : confirm_order service payment_id amount currency o w
                ≡ confirm_ready service payment_id service.sync_svc cents o w =
              ground arith in
            (
              o,
              refl,
              rw run (
                  ready-Transition service.sync_svc cents o w only
                    (ap (λ x. activates (x.0)) (sym run) ∙ h)),
            )
      ]
