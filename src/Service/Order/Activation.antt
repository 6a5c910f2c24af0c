-- ===== src/Service/Order/Activation.antt =====
-- A payment callback that is in order activates.
use rs8kvn_bot.Common.{
  ℕ, none, some, ◌≡◌, refl, arith, String, Bool, true, false, str_eq, eq_iff, sym, ap, ◌∙◌, find,
  find-pass, update_if, ◌==◌, ==→eq,
}
use mathlib.Core.Path.{subst}
use rs8kvn_bot.Common.Text.{Text}
use rs8kvn_bot.Common.Int.{ℤ, ltb_ℤ, ◌≤ℤ◌}
use rs8kvn_bot.Database.Models.{Order, OrderStatus, Subscription, Product}
use rs8kvn_bot.Database.Monad.{Db, Result, ok, IsCalm, advance}
use rs8kvn_bot.Database.Products.{get_product_by_id}
use rs8kvn_bot.Database.Subscriptions.{get_by_id}
use rs8kvn_bot.Database.Orders.Confirm.{
  confirm_order_paid_cas, calculate_payment_expiry, renew, awaits_payment, mark_paid,
}
use rs8kvn_bot.Database.Orders.Confirm.Laws.{confirm_renews_same_plan}
use rs8kvn_bot.Database.Orders.Chargeback.{has_payment}
use rs8kvn_bot.Database.Orders.Intent.{get_order_by_provider_payment_id, platega}
use rs8kvn_bot.Service.World.{World}
use rs8kvn_bot.Service.Platega.{Parsed, parse_callback_amount}
use rs8kvn_bot.Service.Order.{OrderService, SyncService, plan_in_tx, nil_uuid}
use rs8kvn_bot.Service.Order.Confirm.{
  PaymentConfirmation, after_activation, confirm_with, with_subscription, with_product,
  confirm_ready, confirm_status, confirm_order, confirm_found, confirm_payment, confirm_amount,
  mirror_order_from_subscription_after_cas, renews,
}
use rs8kvn_bot.Service.Order.Payload.{find_payment_order}
use rs8kvn_bot.Service.Order.Lifecycle.{OnlyBindings}

found_by_payment :
    (p : String) (o : Order) (db : Db)
    → IsCalm db
    → find (has_payment platega p) db.tables.orders ≡ some o
    → get_order_by_provider_payment_id platega p db ≡ (ok o, advance db)
unfolding get_order_by_provider_payment_id
found_by_payment p o db calm h = ground (arith, calm db.tick)

found_product :
    (id : ℕ) (x : Product) (db : Db)
    → IsCalm db
    → find (λ r. r.id == id) db.tables.products ≡ some x
    → get_product_by_id id db ≡ (ok x, advance db)
unfolding get_product_by_id
found_product id x db calm h = ground (arith, calm db.tick)

found_subscription :
    (id : ℕ) (x : Subscription) (db : Db)
    → IsCalm db
    → find (λ r. r.id == id) db.tables.subscriptions ≡ some x
    → get_by_id id db ≡ (ok x, advance db)
unfolding get_by_id
found_subscription id x db calm h = ground (arith, calm db.tick)

module _ (service : OrderService) (payment_id : String) (sync : SyncService)
    (only : OnlyBindings sync) where
  -- What an activation of an order leaves, for a subscription that stays on its plan.
  abbrev pub Activated :
      Order → Subscription → Product → ℤ → Db → Result PaymentConfirmation × World → Type 0
  Activated o sub product cents db (r, w) =
      let now = service.now in
      let expiry = calculate_payment_expiry now (some sub) (some product) in
      (r
        ≡ ok (record {
          order =
              some (mirror_order_from_subscription_after_cas o (renew now expiry product sub) now);
          activated = true;
          is_renewal = renews sub;
        }))
      × (w.db.tables.orders
          ≡ update_if (awaits_payment o.id) (mark_paid now now expiry cents) db.tables.orders)
      × (w.db.tables.subscriptions
          ≡ update_if (λ s. s.id == sub.id) (renew now expiry product) db.tables.subscriptions)

  after_activation_runs :
      (o : Order) (sub : Subscription) (p : Product) (b : Bool) (w : World)
      → let end = after_activation service payment_id sync o sub p b w in
        (end.0 ≡ ok (record { order = some o; activated = true; is_renewal = b }))
        × (end.1.db.tables.orders ≡ w.db.tables.orders)
        × (end.1.db.tables.subscriptions ≡ w.db.tables.subscriptions)
  unfolding after_activation
  after_activation_runs o sub p b w = ground (arith, only.sync_only sub.id w.db)

  confirm_with_activates :
      (cents : ℤ) (o : Order) (product : Product) (sub : Subscription) (w : World)
      → IsCalm w.db
      → find (λ s. s.id == sub.id) w.db.tables.subscriptions ≡ some sub
      → find (λ r. r.id == o.id) w.db.tables.orders ≡ some o
      → o.status ≡ OrderStatus.pending
      → sub.plan_id ≡ product.plan_id
      → Activated o sub product cents w.db
          (confirm_with service payment_id sync cents o product sub w)
  unfolding confirm_with
  confirm_with_activates cents o product sub w calm fs fo pending same =
      let now = service.now in
      let expiry = calculate_payment_expiry now (some sub) (some product) in
      let apply = plan_in_tx (some sync) in
      let (r, db') = confirm_order_paid_cas o.id now now sub product apply cents w.db in
      let (done, orders, subs, nodes) =
        confirm_renews_same_plan o.id now sub product apply cents w.db sub o calm fs fo
          (ground (arith, find-pass (λ r. r.id == o.id) w.db.tables.orders o fo)) same in
      let renewed = renew now expiry product sub in
      let after =
        after_activation_runs (mirror_order_from_subscription_after_cas o renewed now) renewed
          product (renews sub) (record w { db = db' }) in
      rw done (after.0, after.1 ∙ orders, after.2 ∙ subs)

  ready_runs :
      (cents : ℤ) (o : Order) (product : Product) (sub : Subscription) (w : World)
      → IsCalm w.db
      → find (λ r. r.id == o.product_id) w.db.tables.products ≡ some product
      → find (λ r. r.id == o.subscription_id) w.db.tables.subscriptions ≡ some sub
      → confirm_ready service payment_id (some sync) cents o w
        ≡ confirm_with service payment_id sync cents o product sub
            (record w { db = advance (advance w.db) })
  unfolding confirm_ready
  ready_runs cents o product sub w calm fp fs =
      ap (λ x. with_product service payment_id sync cents o (x.0) (record w { db = x.1 }))
        (found_product o.product_id product w.db calm fp)
      ∙ ap
          (λ x.
            with_subscription service payment_id sync cents o product (x.0) (record w { db = x.1 }))
          (found_subscription o.subscription_id sub (advance w.db) (λ n. calm n) fs)

  module _ (amount : Text) (currency : String) (cents : ℤ) (o : Order)
      (ready : service.sync_svc ≡ some sync) (pending : o.status ≡ OrderStatus.pending)
      (same_currency : o.currency ≡ currency)
      (reads : parse_callback_amount amount ≡ Parsed.ok cents)
      (covers : o.amount_cents ≤ℤ cents) where
    order_runs :
        (w : World)
        → confirm_order service payment_id amount currency o w
          ≡ confirm_ready service payment_id (some sync) cents o w
    unfolding confirm_order confirm_amount confirm_status
    order_runs w =
        let same : str_eq o.currency currency ≡ true =
          (eq_iff o.currency currency).1 same_currency in
        let enough : ltb_ℤ cents o.amount_cents ≡ false = ground arith in
        rw (same, reads, enough, pending, ready) refl

    payment_runs :
        (payload : Text) (w : World)
        → service.has_payment_provider ≡ true
        → service.lock_error ≡ none
        → str_eq payment_id nil_uuid ≡ false
        → IsCalm w.db
        → find (has_payment platega payment_id) w.db.tables.orders ≡ some o
        → confirm_payment service payment_id payload amount currency w
          ≡ confirm_order service payment_id amount currency o (record w { db = advance w.db })
    unfolding confirm_payment find_payment_order confirm_found
    payment_runs payload w enabled free id calm h =
        let found = found_by_payment payment_id o w.db calm h in ground arith

    -- A payment callback that is in order activates when no statement fails: its payment names a
    -- pending order, in the callback's currency and with a price that the amount covers, whose row,
    -- product and subscription exist, and the subscription is on the product's plan; payments and
    -- synchronization are configured and the lock is acquired. The order becomes paid, with the
    -- callback's amount, and the subscription is renewed to the computed expiry. (The
    -- synchronization writes neither orders nor subscriptions.)
    pub confirm_payment_activates :
        (payload : Text) (w : World) (product : Product) (sub : Subscription)
        → service.has_payment_provider ≡ true
        → service.lock_error ≡ none
        → str_eq payment_id nil_uuid ≡ false
        → IsCalm w.db
        → find (has_payment platega payment_id) w.db.tables.orders ≡ some o
        → find (λ r. r.id == o.id) w.db.tables.orders ≡ some o
        → find (λ r. r.id == o.product_id) w.db.tables.products ≡ some product
        → find (λ r. r.id == o.subscription_id) w.db.tables.subscriptions ≡ some sub
        → sub.plan_id ≡ product.plan_id
        → Activated o sub product cents w.db
            (confirm_payment service payment_id payload amount currency w)
    confirm_payment_activates payload w product sub enabled free id calm h fo fp fs plan =
        let w1 = record w { db = advance w.db } in
        let w3 = record w { db = advance (advance (advance w.db)) } in
        let owner : sub.id ≡ o.subscription_id =
          ==→eq sub.id o.subscription_id
            (find-pass (λ r. r.id == o.subscription_id) w.db.tables.subscriptions sub fs) in
        let run =
          payment_runs payload w enabled free id calm h
          ∙ order_runs w1
          ∙ ready_runs cents o product sub w1 (λ n. calm n) fp fs in
        subst (λ x. Activated o sub product cents w.db x) (sym run)
          (confirm_with_activates cents o product sub w3 (λ n. calm n)
            (subst (λ i. find (λ s. s.id == i) w.db.tables.subscriptions ≡ some sub) (sym owner) fs)
            fo pending plan)
