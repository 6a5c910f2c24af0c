-- ===== src/Service/Order/History.antt =====
-- The calls of the order service, in any order: requests, callbacks, reconciliation and fees. An
-- order keeps its purchase and its status only moves forward across them.
use rs8kvn_bot.Common.{ℕ, Option, none, some, ◌≡◌, arith, find, ◌==◌, String, Bool, true, false}
use rs8kvn_bot.Common.Text.{Text, text_of, decimal}
use rs8kvn_bot.Common.Int.{ℤ, pos}
use rs8kvn_bot.Database.Models.{Subscription, Product, Order}
use rs8kvn_bot.Database.Orders.Intent.{expire_pending_order}
use rs8kvn_bot.Database.Orders.Lifecycle.Evolves.{Follows}
use rs8kvn_bot.Database.Orders.Lifecycle.Reach.{
  Reach, here, next, others, expire_one, amounts, order_lifecycle,
}
use rs8kvn_bot.Service.World.{World, lift, pure}
use rs8kvn_bot.Service.World.Runs.{Runs, Runs-lift, Runs-bind, Runs-if, Reach-trans}
use rs8kvn_bot.Service.Platega.{Parsed, commission_cents}
use rs8kvn_bot.Service.Order.{OrderService, Uuid, parse_transaction_id}
use rs8kvn_bot.Service.Order.Confirm.{confirm_payment}
use rs8kvn_bot.Service.Order.Lifecycle.{HasBindings, confirm_payment-Runs}
use rs8kvn_bot.Service.Order.Cancel.Runs.{cancel_payment-Runs}
use rs8kvn_bot.Service.Order.Request.{Request, request_payment}
use rs8kvn_bot.Service.Order.Request.Runs.{request_payment-Runs}
use rs8kvn_bot.Service.Order.Cancel.{cancel_payment_by_provider}
use rs8kvn_bot.Service.Order.Reconcile.{
  StatusAnswer, ReconcileResult, normalized, is_status, is_refusal, audit_expiry,
  expire_reconciled_order, confirmed_result, reconcile_answer, reconcile_payment,
  reconcile_pending_order, save_fee, persist_provider_fee,
}

audit-Runs : (o : Order) (b : Bool) → Runs (audit_expiry o b)
audit-Runs o false = λ w. here
audit-Runs o true = λ w. next here (others _ (ground arith))

expire-Runs : (o : Order) → Runs (expire_reconciled_order o)
unfolding expire_reconciled_order
expire-Runs o =
    Runs-bind {B = ReconcileResult} (lift (expire_pending_order o.id)) (audit_expiry o)
      (Runs-lift (expire_pending_order o.id) (λ db. next here (expire_one o.id))) (audit-Runs o)

answer-Runs :
    (service : OrderService) (payment_id : String) (o : Order) (a : StatusAnswer)
    → HasBindings service.sync_svc
    → Runs (reconcile_answer service payment_id o a)
unfolding reconcile_answer
answer-Runs service payment_id o StatusAnswer.transaction_not_found only = expire-Runs o
answer-Runs service payment_id o StatusAnswer.provider_failed only = λ w. here
answer-Runs service payment_id o (StatusAnswer.response none) only = λ w. here
answer-Runs service payment_id o (StatusAnswer.response (some t)) only =
    Runs-if (is_status "CONFIRMED" (normalized t.status)) _ _
      (Runs-bind {B = ReconcileResult}
        (confirm_payment service payment_id (decimal o.id) t.amount t.currency)
        (λ c. pure (confirmed_result c))
        (confirm_payment-Runs service payment_id (decimal o.id) t.amount t.currency only)
        (λ c. λ w. here))
      (Runs-if (is_refusal (normalized t.status)) _ _ (expire-Runs o) (λ w. here))

reconcile-Runs :
    (uuid_parse : Text → Option Uuid) (provider : String → StatusAnswer) (service : OrderService)
    (o : Order)
    → HasBindings service.sync_svc
    → Runs (reconcile_pending_order uuid_parse provider service o)
unfolding reconcile_pending_order
reconcile-Runs uuid_parse provider service o only =
    of_id (parse_transaction_id uuid_parse (text_of o.provider_payment_id))
  where
    of_id : (p : Option String) → Runs (reconcile_payment uuid_parse provider service o p)
    of_id none = λ w. here
    of_id (some p) = answer-Runs service p o (provider p) only

save_fee-Runs : (id : ℕ) (cents : ℤ) (r : Parsed ℤ) → Runs (save_fee id cents r)
save_fee-Runs id cents (Parsed.err e) = λ w. here
save_fee-Runs id cents (Parsed.ok fee) = λ w. next here (amounts id cents (some fee))

fee-Runs : (a : StatusAnswer) (id : ℕ) (cents : ℤ) → Runs (persist_provider_fee a id cents)
unfolding persist_provider_fee
fee-Runs StatusAnswer.transaction_not_found id cents =
    λ w. next here (amounts id cents (some (pos 0)))
fee-Runs StatusAnswer.provider_failed id cents = λ w. here
fee-Runs (StatusAnswer.response none) id cents = λ w. here
fee-Runs (StatusAnswer.response (some t)) id cents =
    Runs-if (is_status "CONFIRMED" t.status) _ _
      (save_fee-Runs id cents (commission_cents t.commission)) (λ w. here)

-- One call of the service, with any configuration and any answer of the provider; the
-- synchronization writes node bindings only.
pub data Call (w : World) : World → Type 0 where
  confirm :
      (service : OrderService) (payment_id : String) (payload amount : Text) (currency : String)
      → HasBindings service.sync_svc
      → Call w (confirm_payment service payment_id payload amount currency w).1
  cancel :
      (service : OrderService) (payment_id status : String) (amount : Text) (currency : String)
      → HasBindings service.sync_svc
      → Call w (cancel_payment_by_provider service payment_id status amount currency w).1
  reconcile :
      (uuid_parse : Text → Option Uuid) (provider : String → StatusAnswer) (service : OrderService)
      (o : Order)
      → HasBindings service.sync_svc
      → Call w (reconcile_pending_order uuid_parse provider service o w).1
  ask :
      (request : Request) (telegram_id : ℤ) (canonical : Product) (sub : Subscription)
      → Call w (request_payment request telegram_id canonical sub w).1
  save_provider_fee :
      (answer : StatusAnswer) (order_id : ℕ) (cents : ℤ)
      → Call w (persist_provider_fee answer order_id cents w).1

pub data History (w : World) : World → Type 0 where
  start : History w w
  then_call : {mid end : World} → History w mid → Call mid end → History w end

Call-Reach : {w w' : World} → Call w w' → Reach w.db w'.db
Call-Reach {w} (confirm s p pl a c only) = confirm_payment-Runs s p pl a c only w
Call-Reach {w} (cancel s p st a c only) = cancel_payment-Runs s p st a c only w
Call-Reach {w} (reconcile u pr s o only) = reconcile-Runs u pr s o only w
Call-Reach {w} (ask r t p sub) = request_payment-Runs r t p sub w
Call-Reach {w} (save_provider_fee a i c) = fee-Runs a i c w

History-Reach : {w w' : World} → History w w' → Reach w.db w'.db
History-Reach {w} start = here
History-Reach {w} (then_call {mid} {end} h c) =
    Reach-trans w.db mid.db end.db (History-Reach h) (Call-Reach c)

-- After any sequence of requests for a link, callbacks, cancellations, chargebacks, reconciliations
-- and fee lookups, with any answers of the provider and any failing statements, an order that was in
-- the table is still there, for the same subscription, product, amount and currency, and its status
-- only moved forward: a canceled order stays canceled, a paid one is paid or canceled. (The
-- synchronization writes neither orders nor subscriptions.)
pub service_lifecycle :
    (w w' : World) (id : ℕ) (o : Order)
    → History w w'
    → find (λ r. r.id == id) w.db.tables.orders ≡ some o
    → (o' : Order) × (find (λ r. r.id == id) w'.db.tables.orders ≡ some o') × Follows o o'
service_lifecycle w w' id o h e = order_lifecycle w.db w'.db id o (History-Reach h) e
