-- ===== src/Database/Orders/Intent.antt =====
-- internal/database/orders.go: payment intents (the pending orders), their link and deadline, and
-- the order queries. Constraints of migration 034: the partial unique indexes and the foreign keys.
pub mod Validity
pub mod Laws
use rs8kvn_bot.Common.{
  ℕ, suc, ◌-◌, Bool, true, false, not, ◌&&◌, ◌||◌, Option, none, some, String, ltb, leb, ◌==◌,
  if◌then◌else◌, find, select, count_if, update_if, List, [], ◌∷◌, ◌++◌, str_eq, any_of, take, ◌*◌,
}
use rs8kvn_bot.Common.Int.{ℤ, pos, ltb_ℤ}
use rs8kvn_bot.Database.Models.{
  Time, day, Subscription, Product, Order, OrderStatus, AuditLog, is_pending, is_paid,
}
use rs8kvn_bot.Database.Monad.{
  M, Db, Tables, Error, Result, ok, err, pure, raise, or_raise, ◌>>=◌, ◌>>◌, query, statement,
  transaction, best_effort, insert_audit_log,
}
use rs8kvn_bot.Database.Orders.Confirm.{update_orders, first_order}
use rs8kvn_bot.Database.Orders.Chargeback.{has_payment}

abbrev pub platega : String
platega = "platega"

unfoldable pub get_order_by_id : ℕ → M Order
get_order_by_id id = first_order (λ o. o.id == id)

unfoldable pub get_order_by_provider_payment_id : String → String → M Order
get_order_by_provider_payment_id provider payment_id = first_order (has_payment provider payment_id)

-- `id = ? AND status = pending`
abbrev pub pending_with_id : ℕ → Order → Bool
pending_with_id id o = o.id == id && is_pending o.status

abbrev pub expire : Order → Order
expire o = record o { status = OrderStatus.expired }

-- ExpirePendingOrder
unfoldable pub expire_pending_order : ℕ → M Bool
expire_pending_order id = update_orders (pending_with_id id) expire >>= λ n. pure (ltb 0 n)

-- the pending intent of a subscription and a product
abbrev pub pending_for : ℕ → ℕ → Order → Bool
pending_for sub_id product_id o =
    o.subscription_id == sub_id
    && (o.product_id == product_id && (str_eq o.payment_provider platega && is_pending o.status))

-- `order.PaymentExpiresAt != nil && !now.Before(*order.PaymentExpiresAt)`
abbrev pub link_expired : Option Time → Time → Bool
link_expired none now = false
link_expired (some t) now = leb t now

unfoldable pub expire_found : Order → M (Option Order)
expire_found o = do
  n ← update_orders (pending_with_id o.id) expire
  if n == 1
      then (do
        best_effort (insert_audit_log (AuditLog.order_expired (expire o)))
        pure (some (expire o)))
      else (first_order (λ r. r.id == o.id) >>= λ current. pure (some current))

-- FindPendingPaymentOrder
unfoldable pub find_pending_payment_order : ℕ → ℕ → Time → M (Option Order)
unfolding expire_found
find_pending_payment_order sub_id product_id now =
    query (λ t. find (pending_for sub_id product_id) t.orders) >>= λ found. elim found [
      | none ↦ pure none
      | some o ↦ if link_expired o.payment_expires_at now then expire_found o else pure (some o)
    ]

-- the row that FindOrCreatePendingPaymentOrder inserts; the database gives the id
abbrev pub new_intent : ℕ → ℕ → ℕ → ℤ → String → Time → Order
new_intent id sub_id product_id amount currency now = record {
  id = id;
  subscription_id = sub_id;
  product_id = product_id;
  status = OrderStatus.pending;
  amount_cents = amount;
  callback_amount_cents = none;
  provider_fee_cents = none;
  currency = currency;
  payment_provider = platega;
  provider_payment_id = "";
  created_at = now;
  paid_at = none;
  activated_at = none;
  expires_at = none;
  payment_url = "";
  payment_expires_at = none;
  payment_creation_uncertain = false;
}

-- the foreign keys, and `amount_cents >= 0`
abbrev pub accepts_intent : Tables → ℕ → ℕ → ℤ → Bool
accepts_intent t sub_id product_id amount =
    any_of (λ s. s.id == sub_id) t.subscriptions
    && (any_of (λ p. p.id == product_id) t.products && not (ltb_ℤ amount (pos 0)))

abbrev pub insert_row : Tables → Order → Tables
insert_row t o = record t { orders = t.orders ++ o ∷ []; next_order_id = suc t.next_order_id }

-- INSERT INTO orders
abbrev pub create_intent : ℕ → ℕ → ℤ → String → Time → M Order
create_intent sub_id product_id amount currency now = statement (λ t.
    let o = new_intent t.next_order_id sub_id product_id amount currency now in
    if any_of (pending_for sub_id product_id) t.orders
    then (err Error.unique_constraint, t)
    else if accepts_intent t sub_id product_id amount
    then (ok o, insert_row t o)
    else (err Error.constraint_failed, t))

abbrev pub replace_expired : Order → M Order → M (Order × Option Order)
replace_expired o create = update_orders (pending_with_id o.id) expire >>= λ _.
    create >>= λ fresh. pure (fresh, some (expire o))

-- The transaction's body: the intent, and the one that it expired.
unfoldable pub find_or_create_body : ℕ → ℕ → ℤ → String → Time → M (Order × Option Order)
find_or_create_body sub_id product_id amount currency now =
    let create = create_intent sub_id product_id amount currency now in
    query (λ t. find (pending_for sub_id product_id) t.orders) >>= λ found. elim found [
      | none ↦ create >>= λ fresh. pure (fresh, none)
      | some o ↦
          if o.payment_creation_uncertain || not (link_expired o.payment_expires_at now)
          then pure (o, none)
          else replace_expired o create
    ]

abbrev audit_expired : Option Order → M (Unit {0})
audit_expired none = pure tt
audit_expired (some o) = best_effort (insert_audit_log (AuditLog.order_expired o))

-- A losing creator reads the winner's intent.
abbrev pub reload_winner : ℕ → ℕ → Error → M Order
reload_winner sub_id product_id Error.unique_constraint =
    query (λ t. find (pending_for sub_id product_id) t.orders) >>= λ o.
    or_raise o Error.record_not_found
reload_winner sub_id product_id e = raise e

-- After the transaction: audit the expiry, or read the winner of a race.
abbrev pub settle : ℕ → ℕ → Result (Order × Option Order) × Db → Result Order × Db
settle sub_id product_id (ok (o, x), db) = (audit_expired x >> pure o) db
settle sub_id product_id (err e, db) = reload_winner sub_id product_id e db

-- FindOrCreatePendingPaymentOrder
unfoldable pub find_or_create_pending_payment_order : ℕ → ℕ → ℤ → String → Time → M Order
find_or_create_pending_payment_order sub_id product_id amount currency now db =
    settle sub_id product_id
      (transaction (find_or_create_body sub_id product_id amount currency now) db)

-- `provider_payment_id IS NULL OR provider_payment_id = ''`
abbrev pub has_no_payment_id : Order → Bool
has_no_payment_id o = str_eq o.provider_payment_id ""

abbrev pub claim_filter : ℕ → Bool → Order → Bool
claim_filter id true o =
    pending_with_id id o && (not o.payment_creation_uncertain && has_no_payment_id o)
claim_filter id false o = pending_with_id id o && o.payment_creation_uncertain

abbrev audit_uncertain : ℕ → Bool → M (Unit {0})
audit_uncertain id true = best_effort (
    first_order (λ o. o.id == id) >>= λ o. insert_audit_log (AuditLog.payment_creation_uncertain o))
audit_uncertain id false = pure tt

-- MarkPaymentCreationUncertain
unfoldable pub mark_payment_creation_uncertain : ℕ → Bool → M Bool
mark_payment_creation_uncertain id uncertain = do
  n ←
      update_orders (claim_filter id uncertain)
        (λ o. record o { payment_creation_uncertain = uncertain })
  if n == 1 then (audit_uncertain id uncertain >> pure true) else pure false

-- another row holds the payment id: idx_orders_provider_payment_unique
abbrev pub takes_payment : (Order → Bool) → String → String → List Order → Bool
takes_payment p provider payment_id orders =
    any_of (λ o. not (p o) && has_payment provider payment_id o) orders

-- UPDATE orders that sets the payment id of the rows that pass
abbrev pub update_payment : (Order → Bool) → (Order → Order) → String → M ℕ
update_payment p f payment_id = statement (λ t.
    if ltb 0 (count_if p t.orders) && takes_payment p platega payment_id t.orders
    then (err Error.unique_constraint, t)
    else (ok (count_if p t.orders), record t { orders = update_if p f t.orders }))

abbrev pub details : String → String → Time → Order → Order
details payment_id url expires_at o = record o {
  provider_payment_id = payment_id;
  payment_url = url;
  payment_expires_at = some expires_at;
  payment_creation_uncertain = false;
}

-- SavePaymentDetails; every pending order that the code creates has the provider "platega".
unfoldable pub save_payment_details : ℕ → String → String → Time → M (Unit {0})
save_payment_details id payment_id url expires_at = do
  n ← update_payment (pending_with_id id) (details payment_id url expires_at) payment_id
  if n == 0 then raise Error.order_not_found else pure tt

abbrev pub unattached : ℕ → Order → Bool
unattached id o = o.id == id && has_no_payment_id o

abbrev pub attached : String → Order → Order
attached payment_id o = record o { provider_payment_id = payment_id; payment_provider = platega }

-- AttachProviderPaymentID; the only caller passes "platega".
unfoldable pub attach_provider_payment_id : ℕ → String → M Bool
attach_provider_payment_id id payment_id =
    update_payment (unattached id) (attached payment_id) payment_id >>= λ n. pure (ltb 0 n)

abbrev pub set_amounts : ℤ → Option ℤ → Order → Order
set_amounts cents none o = record o { callback_amount_cents = some cents }
set_amounts cents (some fee) o = record o {
  callback_amount_cents = some cents;
  provider_fee_cents = some fee;
}

-- SaveOrderPaymentAmounts
unfoldable pub save_order_payment_amounts : ℕ → ℤ → Option ℤ → M (Unit {0})
save_order_payment_amounts id cents fee =
    update_orders (λ o. o.id == id) (set_amounts cents fee) >>= λ _. pure tt
