-- ===== src/Database/Orders/Lifecycle/Steps.antt =====
-- Each operation of the store, with any failing statements, evolves the orders table.
use rs8kvn_bot.Common.{
  ℕ, suc, some, List, ◌≡◌, ◌⊎◌, refl, ap, ◌==◌, arith, find, update_if, Option-cases, Bool-cases,
  inl, inr,
}
use rs8kvn_bot.Common.Int.{ℤ}
use rs8kvn_bot.Database.Models.{Time, Subscription, Product, Order}
use rs8kvn_bot.Database.Monad.{Db, Tables, Result, ok, err, M, transaction, finish}
use rs8kvn_bot.Database.Orders.Confirm.{
  ApplyPlanInTx, awaits_payment, mark_paid, confirm_order_paid_cas,
}
use rs8kvn_bot.Database.Orders.Confirm.Activation.{OnlyNodes}
use rs8kvn_bot.Database.Orders.Confirm.Laws.{
  activated, confirm_unactivated_unchanged, activated_orders,
}
use rs8kvn_bot.Database.Orders.Chargeback.{cancel, revoke_entitlement, cancel_found}
use rs8kvn_bot.Database.Orders.Chargeback.Laws.{
  orders_after, before_free_plan, run_apply_keeps, canceled_db,
}
use rs8kvn_bot.Database.Orders.Intent.{pending_with_id, expire}
use rs8kvn_bot.Database.Orders.Lifecycle.Evolves.{Evolves, Follows, Evolves-refl, Evolves-update_if}

-- an unchanged table
pub Evolves-same : (xs ys : List Order) → ys ≡ xs → Evolves xs ys
Evolves-same xs ys e = rw e (Evolves-refl xs)

paid-Evolves :
    (i : ℕ) (a b c : Time) (z : ℤ) (xs : List Order)
    → Evolves xs (update_if (awaits_payment i) (mark_paid a b c z) xs)
paid-Evolves i a b c z xs =
    Evolves-update_if (awaits_payment i) (mark_paid a b c z) xs (λ o h. ground arith)

pub expire-Evolves :
    (i : ℕ) (xs : List Order) → Evolves xs (update_if (pending_with_id i) expire xs)
expire-Evolves i xs = Evolves-update_if (pending_with_id i) expire xs (λ o h. ground arith)

pub confirm-Evolves :
    (order_id : ℕ) (now : Time) (sub : Subscription) (product : Product) (apply : ApplyPlanInTx)
    (cents : ℤ) (db : Db)
    → OnlyNodes apply
    → Evolves db.tables.orders
        (confirm_order_paid_cas order_id now now sub product apply cents db).1.tables.orders
confirm-Evolves i now sub product apply cents db only =
    elim (Bool-cases (activated (confirm_order_paid_cas i now now sub product apply cents db).0)) [
      | inl active ↦
          let (expiry, paid) = activated_orders i now sub product apply cents db only active in
          rw paid (paid-Evolves i now now expiry cents db.tables.orders)
      | inr idle ↦ Evolves-same _ _ (
          ap (λ (t : Tables). t.orders)
            (confirm_unactivated_unchanged i now sub product apply cents db idle))
    ]

-- In the transaction the plan change and the subscription leave the orders alone.
revoke_entitlement_keeps :
    (order : Order) (current : Subscription) (now : Time) (plan : ℕ) (apply : ApplyPlanInTx)
    (db : Db)
    → OnlyNodes apply
    → (revoke_entitlement order current now plan apply db).1.tables.orders ≡ db.tables.orders
unfolding revoke_entitlement
revoke_entitlement_keeps order current now plan apply db only =
    ground (
      arith,
      run_apply_keeps apply order.subscription_id plan (before_free_plan order plan db) only,
    )

pub cancel-Follows : (o : Order) → Follows o (cancel o)
cancel-Follows o = ground arith

cancel-Evolves : (order : Order) (xs : List Order) → Evolves xs (orders_after order xs)
cancel-Evolves order xs = Evolves-update_if _ cancel xs (λ o h. cancel-Follows o)

cancel_found_orders :
    (found order : Order) (now : Time) (plan : ℕ) (apply : ApplyPlanInTx) (db : Db)
    → OnlyNodes apply
    → find (λ o. o.id == found.id) db.tables.orders ≡ some order
    → ((cancel_found found now plan apply db).1.tables.orders ≡ db.tables.orders)
      ⊎ ((cancel_found found now plan apply db).1.tables.orders
          ≡ orders_after order db.tables.orders)
unfolding cancel_found
cancel_found_orders found order now plan apply db only e =
    elim (Option-cases (find (λ s. s.id == found.subscription_id) db.tables.subscriptions)) [
      | inl none_found ↦ inl (ground arith)
      | inr (current, fs) ↦ elim (Option-cases (db.faults db.tick)) [
        | inr failed ↦ inl (ground arith)
        | inl f₀ ↦ elim (Option-cases (db.faults (suc db.tick))) [
          | inr failed ↦ inl (ground arith)
          | inl f₁ ↦ elim (Option-cases (db.faults (suc (suc db.tick)))) [
            | inr failed ↦ inl (ground arith)
            | inl f₂ ↦ inr (
                ground (
                  arith,
                  revoke_entitlement_keeps order current now plan apply (canceled_db order db) only,
                ))
          ]
        ]
      ]
    ]

pub cancel_found-Evolves :
    (found : Order) (now : Time) (plan : ℕ) (apply : ApplyPlanInTx) (db : Db)
    → OnlyNodes apply
    → Evolves db.tables.orders (cancel_found found now plan apply db).1.tables.orders
unfolding cancel_found
cancel_found-Evolves found now plan apply db only =
    elim (Option-cases (find (λ o. o.id == found.id) db.tables.orders)) [
      | inl e' ↦ Evolves-same _ _ (ground arith)
      | inr (order, e') ↦ elim (cancel_found_orders found order now plan apply db only e') [
        | inl same ↦ Evolves-same _ _ same
        | inr moved ↦ rw moved (cancel-Evolves order db.tables.orders)
      ]
    ]

transaction_end :
    {A : Type 0} (r : Result A × Db) (db : Db)
    → ((finish db r).1.tables ≡ r.1.tables) ⊎ ((finish db r).1.tables ≡ db.tables)
transaction_end (err e, db') db = inr refl
transaction_end (ok a, db') db = elim (Option-cases (db'.faults db'.tick)) [
  | inl fine ↦ inl (ground arith)
  | inr failed ↦ inr (ground arith)
]

-- A transaction ends with the tables of its body, or with those that it began with.
transaction_tables :
    {A : Type 0} (body : M A) (db : Db)
    → ((transaction body db).1.tables ≡ (body db).1.tables)
      ⊎ ((transaction body db).1.tables ≡ db.tables)
unfolding transaction
transaction_tables body db = transaction_end (body db) db

pub transaction-Evolves :
    {A : Type 0} (body : M A) (db : Db)
    → Evolves db.tables.orders (body db).1.tables.orders
    → Evolves db.tables.orders (transaction body db).1.tables.orders
transaction-Evolves body db h = elim (transaction_tables body db) [
  | inl kept ↦ rw kept h
  | inr undone ↦ rw undone (Evolves-refl db.tables.orders)
]
