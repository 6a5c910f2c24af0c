-- ===== src/Database/Orders/Confirm/Activation.antt =====
-- What a confirmation that reports an activation has done.
use rs8kvn_bot.Common.{
  ℕ, suc, Bool, true, Option, none, some, ◌≡◌, ◌≢◌, refl, ◌==◌, arith, find, count_if, update_if,
  ◌++◌, ◌∷◌, [], Bool-cases, inl, inr,
}
use rs8kvn_bot.Common.Int.{ℤ}
use rs8kvn_bot.Database.Models.{Time, Subscription, Product, Order, AuditLog}
use rs8kvn_bot.Database.Monad.{Db, ok, transaction}
use rs8kvn_bot.Database.Orders.Confirm.{
  ApplyPlanInTx, calculate_payment_expiry, awaits_payment, mark_paid, renew, confirm_body,
  confirm_order_paid_cas, activate_subscription, run_plan_change,
}

-- A plan change that writes neither orders nor subscriptions.
abbrev pub OnlyNodes : ApplyPlanInTx → Type 0
OnlyNodes none = Unit
OnlyNodes (some f) =
    (a b : ℕ) (db : Db)
    → ((f a b db).1.tables.orders ≡ db.tables.orders)
      × ((f a b db).1.tables.subscriptions ≡ db.tables.subscriptions)

pub run_plan_change_keeps :
    (apply : ApplyPlanInTx) (a b c : ℕ) (db : Db)
    → OnlyNodes apply
    → ((run_plan_change apply a b c db).1.tables.orders ≡ db.tables.orders)
      × ((run_plan_change apply a b c db).1.tables.subscriptions ≡ db.tables.subscriptions)
run_plan_change_keeps none a b c db h = (refl, refl)
run_plan_change_keeps (some f) a b c db h = elim (Bool-cases (b == c)) [
  | inl same ↦ rw same (refl, refl)
  | inr new ↦ rw new (h a c db)
]

-- the database when the plan change begins
abbrev pub before_plan_change : Order → Subscription → Time → Time → ℕ → Product → Db → Db
before_plan_change order current now expiry sub_id product db =
    let renewed = renew now expiry product current in
    let t = db.tables in
    record db {
      tables = record t {
        subscriptions = update_if (λ s. s.id == sub_id) (renew now expiry product) t.subscriptions;
        audit_log =
            (t.audit_log ++ AuditLog.payment_confirmed order renewed product expiry ∷ [])
            ++ AuditLog.subscription_renewed current renewed product ∷ [];
      };
      tick = suc (suc (suc db.tick));
    }

pub run_plan_change_same :
    (apply : ApplyPlanInTx) (a b c : ℕ) (db : Db)
    → b ≡ c
    → run_plan_change apply a b c db ≡ (ok tt, db)
run_plan_change_same none a b c db h = refl
run_plan_change_same (some f) a b c db h = ground arith

pub activate_subscription_same_plan :
    (order : Order) (current : Subscription) (now expiry : Time) (sub_id : ℕ) (product : Product)
    (apply : ApplyPlanInTx) (db : Db)
    → ((n : ℕ) → db.faults n ≡ none)
    → count_if (λ s. s.id == sub_id) db.tables.subscriptions ≢ 0
    → current.plan_id ≡ product.plan_id
    → activate_subscription order current now expiry sub_id product apply db ≡ (
      ok (true, renew now expiry product current),
      before_plan_change order current now expiry sub_id product db,
    )
unfolding activate_subscription
activate_subscription_same_plan order current now expiry sub_id product apply db calm owner same =
    ground (
      arith,
      calm db.tick,
      calm (suc db.tick),
      calm (suc (suc db.tick)),
      run_plan_change_same apply sub_id current.plan_id product.plan_id
          (before_plan_change order current now expiry sub_id product db) same,
    )

pub activate_subscription-ok :
    (order : Order) (current : Subscription) (now expiry : Time) (sub_id : ℕ) (product : Product)
    (apply : ApplyPlanInTx) (db : Db) (r : Bool × Subscription) (db' : Db)
    → OnlyNodes apply
    → activate_subscription order current now expiry sub_id product apply db ≡ (ok r, db')
    → (r ≡ (true, renew now expiry product current))
      × (db'.tables.orders ≡ db.tables.orders)
      × (db'.tables.subscriptions
          ≡ update_if (λ s. s.id == sub_id) (renew now expiry product) db.tables.subscriptions)
unfolding activate_subscription
activate_subscription-ok order current now expiry sub_id product apply db r db' only h = ground (
  arith,
  run_plan_change_keeps apply sub_id current.plan_id product.plan_id
      (before_plan_change order current now expiry sub_id product db) only,
)

module _ (order_id : ℕ) (now : Time) (sub : Subscription) (product : Product)
    (apply : ApplyPlanInTx) (cents : ℤ) (db : Db) where
  abbrev pub found_subscription : Option Subscription
  found_subscription = find (λ s. s.id == sub.id) db.tables.subscriptions

  abbrev pub found_order : Option Order
  found_order = find (λ o. o.id == order_id) db.tables.orders

  abbrev pub expiry_for : Subscription → Time
  expiry_for current = calculate_payment_expiry now (some current) (some product)

  -- the database once the order's row is paid
  abbrev pub paid_db : Time → Db
  paid_db expiry =
      let t = db.tables in
      record db {
        tables = record t {
          orders = update_if (awaits_payment order_id) (mark_paid now now expiry cents) t.orders;
        };
        tick = suc (suc (suc db.tick));
      }

  pub confirm_true_case :
      (current : Subscription) (order : Order) (renewed : Subscription)
      → OnlyNodes apply
      → found_subscription ≡ some current
      → found_order ≡ some order
      → (confirm_order_paid_cas order_id now now sub product apply cents db).0 ≡ ok (true, renewed)
      → let after = (confirm_order_paid_cas order_id now now sub product apply cents db).1.tables in
        (count_if (awaits_payment order_id) db.tables.orders ≢ 0)
        × (renewed ≡ renew now (expiry_for current) product current)
        × (after.orders
            ≡ update_if
                (awaits_payment order_id)
                (mark_paid now now (expiry_for current) cents)
                db.tables.orders)
        × (after.subscriptions
            ≡ update_if
                (λ s. s.id == sub.id)
                (renew now (expiry_for current) product)
                db.tables.subscriptions)
  unfolding confirm_order_paid_cas confirm_body transaction
  confirm_true_case current order renewed only fs fo h = ground (
    arith,
    activate_subscription-ok order current now (expiry_for current) sub.id product apply
        (paid_db (expiry_for current)) (true, renewed)
        (activate_subscription order current now (expiry_for current) sub.id product apply
          (paid_db (expiry_for current))).1
        only,
  )
