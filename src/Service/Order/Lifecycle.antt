-- ===== src/Service/Order/Lifecycle.antt =====
-- The service's operations are runs of the store's, so the life of an order holds across them.
use rs8kvn_bot.Common.{ℕ, Option, none, some, ◌≡◌, arith, String, Bool, not, ◌&&◌, ◌||◌, str_eq}
use rs8kvn_bot.Common.Text.{Text, parse_uint, trim_space, is_empty, text_of}
use rs8kvn_bot.Common.Int.{ℤ, ltb_ℤ}
use rs8kvn_bot.Database.Models.{Order, Subscription, Product, is_pending, is_paid, is_expired}
use rs8kvn_bot.Database.Monad.{Db, Error, Result, ok, err}
use rs8kvn_bot.Database.Products.{get_product_by_id}
use rs8kvn_bot.Database.Subscriptions.{get_by_id}
use rs8kvn_bot.Database.Orders.Confirm.{confirm_order_paid_cas}
use rs8kvn_bot.Database.Orders.Intent.{
  get_order_by_id, get_order_by_provider_payment_id, attach_provider_payment_id, platega,
}
use rs8kvn_bot.Database.Orders.Confirm.Activation.{OnlyNodes}
use rs8kvn_bot.Database.Orders.Lifecycle.Reach.{here, next, others, confirm, attach}
use rs8kvn_bot.Service.World.{S, raise, lift, attempt, ◌>>=◌}
use rs8kvn_bot.Service.World.Runs.{Runs, Runs-lift, Runs-attempt, Runs-bind, Runs-if, Runs-read}
use rs8kvn_bot.Service.Platega.{Parsed, parse_callback_amount}
use rs8kvn_bot.Service.Order.{OrderService, SyncService, plan_in_tx, nil_uuid}
use rs8kvn_bot.Service.Order.Confirm.{
  PaymentConfirmation, after_activation, confirm_with, when_confirmed, with_subscription,
  with_product, confirm_amount, locked, is_product_not_found, is_subscription_not_found, renews,
  is_canceled, within_settlement_grace, confirm_ready, ignore_late, confirm_status, confirm_order,
  confirm_found, confirm_payment,
}
use rs8kvn_bot.Service.Order.Payload.{
  order_by_callback_payload, attach_order, find_payment_order, or_by_payload, is_order_not_found,
}

-- What the order service relies on: the synchronization writes node bindings only.
pub record OnlyBindings (sync : SyncService) : Type 0 where
  pub apply_only : OnlyNodes (some sync.apply_plan_to_subscription_in_tx)
  pub sync_only :
      (id : ℕ) (db : Db)
      → ((sync.sync_subscription id db).1.tables.orders ≡ db.tables.orders)
        × ((sync.sync_subscription id db).1.tables.subscriptions ≡ db.tables.subscriptions)

abbrev pub HasBindings : Option SyncService → Type 0
HasBindings none = Unit
HasBindings (some sync) = OnlyBindings sync

pub found_by_id-Runs : (id : ℕ) → Runs (lift (get_order_by_id id))
unfolding get_order_by_id
found_by_id-Runs id = Runs-read (get_order_by_id id) (λ db. ground arith)

pub found_by_payment-Runs : (p : String) → Runs (lift (get_order_by_provider_payment_id platega p))
unfolding get_order_by_provider_payment_id
found_by_payment-Runs p =
    Runs-read (get_order_by_provider_payment_id platega p) (λ db. ground arith)

product-Runs : (id : ℕ) → Runs (lift (get_product_by_id id))
unfolding get_product_by_id
product-Runs id = Runs-read (get_product_by_id id) (λ db. ground arith)

subscription-Runs : (id : ℕ) → Runs (lift (get_by_id id))
unfolding get_by_id
subscription-Runs id = Runs-read (get_by_id id) (λ db. ground arith)

attach-Runs : (payment_id : String) (o : Order) → Runs (attach_order payment_id o)
attach-Runs payment_id o =
    Runs-if (not (is_empty (trim_space (text_of o.provider_payment_id)))) _ _ (λ w. here)
      (Runs-bind {B = Order} (lift (attach_provider_payment_id o.id payment_id)) _
        (Runs-lift (attach_provider_payment_id o.id payment_id)
          (λ db. next here (attach o.id payment_id)))
        (λ done. Runs-if done _ _ (λ w. here) (λ w. here)))

payload-Runs : (payload : Text) (p : String) → Runs (order_by_callback_payload payload p)
unfolding order_by_callback_payload
payload-Runs payload p = of_number (parse_uint (trim_space payload))
  where
    of_number :
        (n : Option ℕ)
        → Runs (elim n [
          | none ↦ raise {A = Order} Error.order_not_found
          | some id ↦ lift (get_order_by_id id) >>= attach_order p
        ])
    of_number none = λ w. here
    of_number (some id) =
        Runs-bind {B = Order} (lift (get_order_by_id id)) _ (found_by_id-Runs id) (attach-Runs p)

or_by_payload-Runs :
    (payload : Text) (p : String) (r : Result Order) → Runs (or_by_payload payload p r)
or_by_payload-Runs payload p (ok o) = λ w. here
or_by_payload-Runs payload p (err e) =
    Runs-if (is_order_not_found e) _ _ (payload-Runs payload p) (λ w. here)

find-Runs : (p : String) (payload : Text) → Runs (find_payment_order p payload)
unfolding find_payment_order
find-Runs p payload =
    Runs-bind {B = Order} (attempt (lift (get_order_by_provider_payment_id platega p)))
      (or_by_payload payload p)
      (Runs-attempt (lift (get_order_by_provider_payment_id platega p)) (found_by_payment-Runs p))
      (or_by_payload-Runs payload p)

module _ (service : OrderService) (payment_id : String) where
  after-Runs :
      (sync : SyncService) (o : Order) (sub : Subscription) (p : Product) (b : Bool)
      → OnlyBindings sync
      → Runs (after_activation service payment_id sync o sub p b)
  unfolding after_activation
  after-Runs sync o sub p b only w =
      let same : (after_activation service payment_id sync o sub p b w).1.db
          ≡ (sync.sync_subscription sub.id w.db).1 =
        ground arith in
      next here (others _ (rw same (only.sync_only sub.id w.db).0))

  when_confirmed-Runs :
      (sync : SyncService) (o : Order) (p : Product) (sub : Subscription)
      (r : Result (Bool × Subscription))
      → OnlyBindings sync
      → Runs (when_confirmed service payment_id sync o p sub r)
  when_confirmed-Runs sync o p sub (err e) only = λ w. here
  when_confirmed-Runs sync o p sub (ok (b, s)) only =
      Runs-if b _ _ (after-Runs sync _ s p (renews sub) only) (λ w. here)

  confirm_with-Runs :
      (sync : SyncService) (cents : ℤ) (o : Order) (p : Product) (sub : Subscription)
      → OnlyBindings sync
      → Runs (confirm_with service payment_id sync cents o p sub)
  unfolding confirm_with
  confirm_with-Runs sync cents o p sub only =
      let now = service.now in
      let m = confirm_order_paid_cas o.id now now sub p (plan_in_tx (some sync)) cents in
      Runs-bind {B = PaymentConfirmation} (attempt (lift m))
        (when_confirmed service payment_id sync o p sub)
        (Runs-attempt (lift m)
          (λ w. next here (confirm o.id now sub p (plan_in_tx (some sync)) cents only.apply_only)))
        (λ r. when_confirmed-Runs sync o p sub r only)

  with_subscription-Runs :
      (sync : SyncService) (cents : ℤ) (o : Order) (p : Product) (r : Result Subscription)
      → OnlyBindings sync
      → Runs (with_subscription service payment_id sync cents o p r)
  with_subscription-Runs sync cents o p (ok sub) only = confirm_with-Runs sync cents o p sub only
  with_subscription-Runs sync cents o p (err e) only =
      Runs-if (is_subscription_not_found e) _ _ (λ w. here) (λ w. here)

  with_product-Runs :
      (sync : SyncService) (cents : ℤ) (o : Order) (r : Result Product)
      → OnlyBindings sync
      → Runs (with_product service payment_id sync cents o r)
  with_product-Runs sync cents o (ok p) only =
      Runs-bind {B = PaymentConfirmation} (attempt (lift (get_by_id o.subscription_id)))
        (with_subscription service payment_id sync cents o p)
        (Runs-attempt (lift (get_by_id o.subscription_id)) (subscription-Runs o.subscription_id))
        (λ r. with_subscription-Runs sync cents o p r only)
  with_product-Runs sync cents o (err e) only =
      Runs-if (is_product_not_found e) _ _ (λ w. here) (λ w. here)

  ready-Runs :
      (sync : Option SyncService) (cents : ℤ) (o : Order)
      → HasBindings sync
      → Runs (confirm_ready service payment_id sync cents o)
  unfolding confirm_ready
  ready-Runs none cents o only = λ w. here
  ready-Runs (some sync) cents o only =
      Runs-bind {B = PaymentConfirmation} (attempt (lift (get_product_by_id o.product_id)))
        (with_product service payment_id sync cents o)
        (Runs-attempt (lift (get_product_by_id o.product_id)) (product-Runs o.product_id))
        (λ r. with_product-Runs sync cents o r only)

  late-Runs : (o : Order) → Runs (ignore_late service payment_id o)
  unfolding ignore_late get_by_id
  late-Runs o w = next here (others _ (ground arith))

  status-Runs :
      (cents : ℤ) (o : Order)
      → HasBindings service.sync_svc
      → Runs (confirm_status service payment_id cents o)
  unfolding confirm_status
  status-Runs cents o only =
      Runs-if (is_paid o.status) _ _ (λ w. here)
        (Runs-if
          ((is_expired o.status || is_canceled o.status)
            && not (within_settlement_grace service.now o))
          _ _ (late-Runs o)
          (Runs-if (not (is_pending o.status) && not (is_expired o.status)) _ _ (λ w. here)
            (ready-Runs service.sync_svc cents o only)))

  amount-Runs :
      (amount : Text) (currency : String) (o : Order) (r : Parsed ℤ)
      → HasBindings service.sync_svc
      → Runs (confirm_amount service payment_id amount currency o r)
  unfolding confirm_amount
  amount-Runs amount currency o (Parsed.err e) only = λ w. here
  amount-Runs amount currency o (Parsed.ok cents) only =
      Runs-if (ltb_ℤ cents o.amount_cents) _ _ (λ w. here) (status-Runs cents o only)

  found-Runs :
      (amount : Text) (currency : String) (r : Result Order)
      → HasBindings service.sync_svc
      → Runs (confirm_found service payment_id amount currency r)
  unfolding confirm_found confirm_order
  found-Runs amount currency (ok o) only =
      Runs-if (not (str_eq o.currency currency)) _ _ (λ w. here)
        (amount-Runs amount currency o (parse_callback_amount amount) only)
  found-Runs amount currency (err e) only =
      Runs-if (is_order_not_found e) _ _ (λ w. here) (λ w. here)

  pub locked-Runs : {A : Type 0} (l : Option Error) (m : S A) → Runs m → Runs (locked l m)
  locked-Runs none m h = h
  locked-Runs (some e) m h = λ w. here

  -- A payment callback, whatever it carries and whichever statements fail, acts on the database by
  -- operations of the order store only (and by statements that leave the orders alone).
  pub confirm_payment-Runs :
      (payload amount : Text) (currency : String)
      → HasBindings service.sync_svc
      → Runs (confirm_payment service payment_id payload amount currency)
  unfolding confirm_payment
  confirm_payment-Runs payload amount currency only =
      Runs-if (not service.has_payment_provider) _ _ (λ w. here)
        (locked-Runs service.lock_error _ (
          Runs-if (str_eq payment_id nil_uuid) _ _ (λ w. here)
            (Runs-bind {B = PaymentConfirmation} (attempt (find_payment_order payment_id payload))
              (confirm_found service payment_id amount currency)
              (Runs-attempt (find_payment_order payment_id payload) (find-Runs payment_id payload))
              (λ r. found-Runs amount currency r only))))
