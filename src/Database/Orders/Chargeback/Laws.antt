-- ===== src/Database/Orders/Chargeback/Laws.antt =====
-- CancelPaidOrderAndDowngradeCAS: what a chargeback does to the order and the entitlement.
use rs8kvn_bot.Common.{
  ℕ, suc, ◌&&◌, none, some, List, [], ◌∷◌, ◌++◌, ◌≡◌, refl, ◌==◌, update_if, if◌then◌else◌,
}
use rs8kvn_bot.Database.Models.{Order, OrderStatus, ActorType, AuditLog, is_paid, same_status}
use rs8kvn_bot.Database.Monad.{Db}
use rs8kvn_bot.Database.Orders.Confirm.{ApplyPlanInTx}
use rs8kvn_bot.Database.Orders.Confirm.Activation.{OnlyNodes}
use rs8kvn_bot.Database.Orders.Chargeback.{cancel, downgrade, run_apply}

pub run_apply_keeps :
    (apply : ApplyPlanInTx) (a b : ℕ) (db : Db)
    → OnlyNodes apply
    → ((run_apply apply a b db).1.tables.orders ≡ db.tables.orders)
      × ((run_apply apply a b db).1.tables.subscriptions ≡ db.tables.subscriptions)
run_apply_keeps none a b db h = (refl, refl)
run_apply_keeps (some f) a b db h = h a b db

-- the database when the free plan is applied
abbrev pub before_free_plan : Order → ℕ → Db → Db
before_free_plan order free_plan_id db =
    let t = db.tables in
    record db {
      tables = record t {
        subscriptions =
            update_if (λ s. s.id == order.subscription_id) (downgrade free_plan_id) t.subscriptions;
      };
      tick = suc (suc db.tick);
    }

-- What the transaction leaves, in terms of the rows that it read.
abbrev pub orders_after : Order → List Order → List Order
orders_after order orders =
    let from = if is_paid order.status then OrderStatus.paid else OrderStatus.pending in
    update_if (λ o. o.id == order.id && same_status from o.status) cancel orders

-- the database when the coverage of a paid order is counted
abbrev pub canceled_db : Order → Db → Db
canceled_db order db =
    let t = db.tables in
    record db {
      tables = record t {
        orders = orders_after order t.orders;
        audit_log = t.audit_log ++ AuditLog.order_canceled order ActorType.payment_provider ∷ [];
      };
      tick = suc (suc (suc (suc db.tick)));
    }
