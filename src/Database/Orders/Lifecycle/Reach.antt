-- ===== src/Database/Orders/Lifecycle/Reach.antt =====
-- Any sequence of the store's operations, in any order and with any failures: an order's purchase
-- is fixed and its status only moves forward.
use rs8kvn_bot.Common.{
  ℕ, suc, Bool, false, not, ◌||◌, Option, none, some, String, List, ◌≡◌, ◌==◌, arith, find,
  Option-cases, Bool-cases, inl, inr, update_if, refl,
}
use rs8kvn_bot.Common.Int.{ℤ}
use rs8kvn_bot.Database.Models.{Time, Subscription, Product, Order, OrderStatus}
use rs8kvn_bot.Database.Monad.{Db, Result, ok, err, Error, transaction, advance}
use rs8kvn_bot.Database.Orders.Confirm.{ApplyPlanInTx, confirm_order_paid_cas}
use rs8kvn_bot.Database.Orders.Confirm.Activation.{OnlyNodes}
use rs8kvn_bot.Database.Orders.Chargeback.{cancel_paid_order_and_downgrade_cas, cancel_order_cas}
use rs8kvn_bot.Database.Orders.Intent.{
  pending_for, pending_with_id, expire, link_expired, find_or_create_body, create_intent,
  find_or_create_pending_payment_order, expire_pending_order, find_pending_payment_order,
  mark_payment_creation_uncertain, save_payment_details, attach_provider_payment_id,
  save_order_payment_amounts, reload_winner, settle,
}
use rs8kvn_bot.Database.Orders.Lifecycle.Evolves.{
  Evolves, Follows, Evolves-refl, Evolves-trans, Evolves-find,
}
use rs8kvn_bot.Database.Orders.Lifecycle.Steps.{
  Evolves-same, expire-Evolves, confirm-Evolves, transaction-Evolves,
}
use rs8kvn_bot.Database.Orders.Lifecycle.Operations.{
  chargeback-Evolves, cancel_order-Evolves, expire_pending-Evolves, mark_uncertain-Evolves,
  save_amounts-Evolves, save_details-Evolves, attach-Evolves, find_pending-Evolves, create-Evolves,
}

module _ (sub_id product_id : ℕ) (amount : ℤ) (currency : String) (now : Time) where
  replaced-Evolves :
      (o : Order) (db : Db)
      → find (pending_for sub_id product_id) db.tables.orders ≡ some o
      → (o.payment_creation_uncertain || not (link_expired o.payment_expires_at now)) ≡ false
      → db.faults db.tick ≡ none
      → Evolves db.tables.orders
          (find_or_create_body sub_id product_id amount currency now db).1.tables.orders
  unfolding find_or_create_body
  replaced-Evolves o db e old fine = elim (Option-cases (db.faults (suc db.tick))) [
    | inr failed ↦ Evolves-same _ _ (ground arith)
    | inl fine' ↦
        let t = db.tables in
        let db' = record db {
          tables = record t { orders = update_if (pending_with_id o.id) expire t.orders };
          tick = suc (suc db.tick);
        } in
        let same : (find_or_create_body sub_id product_id amount currency now db).1.tables.orders
            ≡ (create_intent sub_id product_id amount currency now db').1.tables.orders =
          ground arith in
        rw same (
          Evolves-trans t.orders db'.tables.orders _ (expire-Evolves o.id t.orders)
            (create-Evolves sub_id product_id amount currency now db'))
  ]

  body-Evolves :
      (db : Db)
      → Evolves db.tables.orders
          (find_or_create_body sub_id product_id amount currency now db).1.tables.orders
  unfolding find_or_create_body
  body-Evolves db = elim (Option-cases (db.faults db.tick)) [
    | inr failed ↦ Evolves-same _ _ (ground arith)
    | inl fine ↦ elim (Option-cases (find (pending_for sub_id product_id) db.tables.orders)) [
      | inl missing ↦
          let same : (find_or_create_body sub_id product_id amount currency now db).1.tables.orders
              ≡ (create_intent sub_id product_id amount currency now (advance db)).1.tables.orders =
            ground arith in
          rw same (create-Evolves sub_id product_id amount currency now (advance db))
      | inr (o, e) ↦
          elim (Bool-cases
            (o.payment_creation_uncertain || not (link_expired o.payment_expires_at now))) [
              | inl kept ↦ Evolves-same _ _ (ground arith)
              | inr old ↦ replaced-Evolves o db e old fine
            ]
    ]
  ]

  reload_keeps :
      (e : Error) (db : Db)
      → (reload_winner sub_id product_id e db).1.tables.orders ≡ db.tables.orders
  reload_keeps Error.unique_constraint db = ground arith
  reload_keeps _ db = refl

  settle_keeps :
      (r : Result (Order × Option Order) × Db)
      → (settle sub_id product_id r).1.tables.orders ≡ r.1.tables.orders
  settle_keeps (ok (o, none), db) = refl
  settle_keeps (ok (o, some x), db) = ground arith
  settle_keeps (err e, db) = reload_keeps e db

  find_or_create-Evolves :
      (db : Db)
      → Evolves db.tables.orders
          (find_or_create_pending_payment_order sub_id product_id amount currency now
            db).1.tables.orders
  unfolding find_or_create_pending_payment_order
  find_or_create-Evolves db =
      let body = find_or_create_body sub_id product_id amount currency now in
      rw (settle_keeps (transaction body db)) (transaction-Evolves body db (body-Evolves db))

-- One operation on the database. Between operations the environment may write other tables.
pub data Step (db : Db) : Db → Type 0 where
  confirm :
      (order_id : ℕ) (now : Time) (sub : Subscription) (product : Product) (apply : ApplyPlanInTx)
      (cents : ℤ)
      → OnlyNodes apply
      → Step db (confirm_order_paid_cas order_id now now sub product apply cents db).1
  charge_back :
      (provider payment_id : String) (now : Time) (plan : ℕ) (apply : ApplyPlanInTx)
      → OnlyNodes apply
      → Step db (cancel_paid_order_and_downgrade_cas provider payment_id now plan apply db).1
  cancel :
      (provider payment_id : String) (from : List OrderStatus)
      → Step db (cancel_order_cas provider payment_id from db).1
  expire_one : (id : ℕ) → Step db (expire_pending_order id db).1
  find_one : (s p : ℕ) (now : Time) → Step db (find_pending_payment_order s p now db).1
  intend :
      (s p : ℕ) (amount : ℤ) (currency : String) (now : Time)
      → Step db (find_or_create_pending_payment_order s p amount currency now db).1
  claim : (id : ℕ) (b : Bool) → Step db (mark_payment_creation_uncertain id b db).1
  link :
      (id : ℕ) (payment_id url : String) (until : Time)
      → Step db (save_payment_details id payment_id url until db).1
  attach : (id : ℕ) (payment_id : String) → Step db (attach_provider_payment_id id payment_id db).1
  amounts :
      (id : ℕ) (cents : ℤ) (fee : Option ℤ) → Step db (save_order_payment_amounts id cents fee db).1
  others : (db' : Db) → db'.tables.orders ≡ db.tables.orders → Step db db'

pub data Reach (db : Db) : Db → Type 0 where
  here : Reach db db
  next : {mid end : Db} → Reach db mid → Step mid end → Reach db end

Step-Evolves : {db db' : Db} → Step db db' → Evolves db.tables.orders db'.tables.orders
Step-Evolves {db} (confirm i now sub p a c only) = confirm-Evolves i now sub p a c db only
Step-Evolves {db} (charge_back pr id now plan a only) = chargeback-Evolves pr id now plan a db only
Step-Evolves {db} (cancel pr id from) = cancel_order-Evolves pr id from db
Step-Evolves {db} (expire_one id) = expire_pending-Evolves id db
Step-Evolves {db} (find_one s p now) = find_pending-Evolves s p now db
Step-Evolves {db} (intend s p a c now) = find_or_create-Evolves s p a c now db
Step-Evolves {db} (claim id b) = mark_uncertain-Evolves id b db
Step-Evolves {db} (link id pid url t) = save_details-Evolves id pid url t db
Step-Evolves {db} (attach id pid) = attach-Evolves id pid db
Step-Evolves {db} (amounts id c f) = save_amounts-Evolves id c f db
Step-Evolves {db} (others db' same) = Evolves-same db.tables.orders db'.tables.orders same

Reach-Evolves : {db db' : Db} → Reach db db' → Evolves db.tables.orders db'.tables.orders
Reach-Evolves {db} here = Evolves-refl db.tables.orders
Reach-Evolves {db} (next {mid} {end} r s) =
    Evolves-trans db.tables.orders mid.tables.orders end.tables.orders (Reach-Evolves r)
      (Step-Evolves s)

-- After any sequence of operations an order that was in the table is still in it, under its id, for
-- the same subscription, product, amount and currency, and its status is one that the old status
-- may become: in particular a canceled order stays canceled, and a paid one is paid or canceled.
pub order_lifecycle :
    (db db' : Db) (id : ℕ) (o : Order)
    → Reach db db'
    → find (λ r. r.id == id) db.tables.orders ≡ some o
    → (o' : Order) × (find (λ r. r.id == id) db'.tables.orders ≡ some o') × Follows o o'
order_lifecycle db db' id o r e =
    Evolves-find id db.tables.orders db'.tables.orders o (Reach-Evolves r) e
