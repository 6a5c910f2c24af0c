-- ===== src/Database/Orders/Lifecycle/Operations.antt =====
-- The chargeback, the cancellation and the operations on intents evolve the orders table.
use rs8kvn_bot.Common.{
  ℕ, Bool, true, ◌&&◌, Option, none, String, List, [], ◌∷◌, ◌++◌, ◌≡◌, ◌≢◌, ◌==◌, arith, find,
  count_if, update_if, Option-cases, Bool-cases, inl, inr, any_of, ltb,
}
use rs8kvn_bot.Common.Int.{ℤ}
use rs8kvn_bot.Database.Models.{Time, Order, OrderStatus, same_status}
use rs8kvn_bot.Database.Monad.{Db, advance}
use rs8kvn_bot.Database.Orders.Confirm.{ApplyPlanInTx}
use rs8kvn_bot.Database.Orders.Confirm.Activation.{OnlyNodes}
use rs8kvn_bot.Database.Orders.Chargeback.{
  cancel, cancel_found, chargeback_body, cancel_paid_order_and_downgrade_cas, cancel_order_cas,
  has_payment,
}
use rs8kvn_bot.Database.Orders.Intent.{
  expire_pending_order, find_pending_payment_order, mark_payment_creation_uncertain,
  save_payment_details, attach_provider_payment_id, save_order_payment_amounts, claim_filter,
  set_amounts, update_payment, takes_payment, platega, details, unattached, attached, pending_for,
  link_expired, create_intent, accepts_intent, new_intent, pending_with_id, expire,
}
use rs8kvn_bot.Database.Orders.Lifecycle.Evolves.{
  Evolves, Follows, Evolves-append, Evolves-update_if,
}
use rs8kvn_bot.Database.Orders.Lifecycle.Steps.{
  Evolves-same, cancel-Follows, cancel_found-Evolves, transaction-Evolves,
}

pub chargeback-Evolves :
    (provider payment_id : String) (now : Time) (plan : ℕ) (apply : ApplyPlanInTx) (db : Db)
    → OnlyNodes apply
    → Evolves db.tables.orders
        (cancel_paid_order_and_downgrade_cas provider payment_id now plan apply db).1.tables.orders
unfolding cancel_paid_order_and_downgrade_cas chargeback_body
chargeback-Evolves provider payment_id now plan apply db only =
    transaction-Evolves (chargeback_body provider payment_id now plan apply) db
      (elim (Option-cases (db.faults db.tick)) [
        | inr failed ↦ Evolves-same _ _ (ground arith)
        | inl fine ↦ elim (Option-cases (find (has_payment provider payment_id) db.tables.orders)) [
          | inl missing ↦ Evolves-same _ _ (ground arith)
          | inr (o, e) ↦
              let run = cancel_found o now plan apply (advance db) in
              let same : (chargeback_body provider payment_id now plan apply db).1.tables.orders
                  ≡ run.1.tables.orders =
                ground arith in
              rw same (cancel_found-Evolves o now plan apply (advance db) only)
        ]
      ])

-- An operation that is one UPDATE of the orders, then statements that leave them alone.
module _ (p : Order → Bool) (f : Order → Order)
    (follows : (o : Order) → p o ≡ true → Follows o (f o)) where
  update-Evolves :
      (db : Db) (ys : List Order)
      → (db.faults db.tick ≡ none → ys ≡ update_if p f db.tables.orders)
      → (db.faults db.tick ≢ none → ys ≡ db.tables.orders)
      → Evolves db.tables.orders ys
  update-Evolves db ys done undone = elim (Option-cases (db.faults db.tick)) [
    | inl fine ↦ rw (done fine) (Evolves-update_if p f db.tables.orders follows)
    | inr (e, failed) ↦ Evolves-same _ _ (undone (λ n. cc))
  ]

pub cancel_order-Evolves :
    (provider payment_id : String) (from : List OrderStatus) (db : Db)
    → Evolves db.tables.orders (cancel_order_cas provider payment_id from db).1.tables.orders
unfolding cancel_order_cas
cancel_order-Evolves provider payment_id from db =
    update-Evolves (λ o. has_payment provider payment_id o && any_of (same_status o.status) from)
      cancel (λ o h. cancel-Follows o) db _ (λ fine. ground arith) (λ failed. ground arith)

pub expire_pending-Evolves :
    (id : ℕ) (db : Db) → Evolves db.tables.orders (expire_pending_order id db).1.tables.orders
unfolding expire_pending_order
expire_pending-Evolves id db =
    update-Evolves (pending_with_id id) expire (λ o h. ground arith) db _ (λ fine. ground arith)
      (λ failed. ground arith)

pub mark_uncertain-Evolves :
    (id : ℕ) (b : Bool) (db : Db)
    → Evolves db.tables.orders (mark_payment_creation_uncertain id b db).1.tables.orders
unfolding mark_payment_creation_uncertain
mark_uncertain-Evolves id b db =
    update-Evolves (claim_filter id b) (λ o. record o { payment_creation_uncertain = b })
      (λ o h. ground arith) db _ (λ fine. ground arith) (λ failed. ground arith)

pub save_amounts-Evolves :
    (id : ℕ) (cents : ℤ) (fee : Option ℤ) (db : Db)
    → Evolves db.tables.orders (save_order_payment_amounts id cents fee db).1.tables.orders
unfolding save_order_payment_amounts
save_amounts-Evolves id cents fee db =
    update-Evolves (λ o. o.id == id) (set_amounts cents fee) (λ o h. ground arith) db _
      (λ fine. ground arith) (λ failed. ground arith)

-- Such an update, where the index on payment ids may refuse it.
module _ (p : Order → Bool) (f : Order → Order)
    (follows : (o : Order) → p o ≡ true → Follows o (f o)) where
  payment-Evolves :
      (id : String) (db : Db) → Evolves db.tables.orders (update_payment p f id db).1.tables.orders
  payment-Evolves id db = elim (Option-cases (db.faults db.tick)) [
    | inr failed ↦ Evolves-same _ _ (ground arith)
    | inl fine ↦
        elim (Bool-cases
          (ltb 0 (count_if p db.tables.orders) && takes_payment p platega id db.tables.orders)) [
            | inl taken ↦ Evolves-same _ _ (ground arith)
            | inr free ↦
                let done : (update_payment p f id db).1.tables.orders
                    ≡ update_if p f db.tables.orders =
                  ground arith in
                rw done (Evolves-update_if p f db.tables.orders follows)
          ]
  ]

pub save_details-Evolves :
    (id : ℕ) (payment_id url : String) (expires_at : Time) (db : Db)
    → Evolves db.tables.orders
        (save_payment_details id payment_id url expires_at db).1.tables.orders
unfolding save_payment_details
save_details-Evolves id payment_id url expires_at db =
    let f = details payment_id url expires_at in
    let same : (save_payment_details id payment_id url expires_at db).1.tables.orders
        ≡ (update_payment (pending_with_id id) f payment_id db).1.tables.orders =
      ground arith in
    rw same (payment-Evolves (pending_with_id id) f (λ o h. ground arith) payment_id db)

pub attach-Evolves :
    (id : ℕ) (payment_id : String) (db : Db)
    → Evolves db.tables.orders (attach_provider_payment_id id payment_id db).1.tables.orders
unfolding attach_provider_payment_id
attach-Evolves id payment_id db =
    let same : (attach_provider_payment_id id payment_id db).1.tables.orders
        ≡ (update_payment (unattached id) (attached payment_id) payment_id db).1.tables.orders =
      ground arith in
    rw same
      (payment-Evolves (unattached id) (attached payment_id) (λ o h. ground arith) payment_id db)

pub find_pending-Evolves :
    (sub_id product_id : ℕ) (now : Time) (db : Db)
    → Evolves db.tables.orders (find_pending_payment_order sub_id product_id now db).1.tables.orders
unfolding find_pending_payment_order
find_pending-Evolves sub_id product_id now db = elim (Option-cases (db.faults db.tick)) [
  | inr failed ↦ Evolves-same _ _ (ground arith)
  | inl fine ↦ elim (Option-cases (find (pending_for sub_id product_id) db.tables.orders)) [
    | inl missing ↦ Evolves-same _ _ (ground arith)
    | inr (o, e) ↦ elim (Bool-cases (link_expired o.payment_expires_at now)) [
      | inr usable ↦ Evolves-same _ _ (ground arith)
      | inl late ↦
          update-Evolves (pending_with_id o.id) expire (λ r h. ground arith) (advance db) _
            (λ done. ground arith) (λ undone. ground arith)
    ]
  ]
]

pub create-Evolves :
    (sub_id product_id : ℕ) (amount : ℤ) (currency : String) (now : Time) (db : Db)
    → Evolves db.tables.orders
        (create_intent sub_id product_id amount currency now db).1.tables.orders
create-Evolves s p amount currency now db = elim (Option-cases (db.faults db.tick)) [
  | inr failed ↦ Evolves-same _ _ (ground arith)
  | inl fine ↦ elim (Bool-cases (any_of (pending_for s p) db.tables.orders)) [
    | inl taken ↦ Evolves-same _ _ (ground arith)
    | inr free ↦ elim (Bool-cases (accepts_intent db.tables s p amount)) [
      | inr refused ↦ Evolves-same _ _ (ground arith)
      | inl accepted ↦
          let row = new_intent db.tables.next_order_id s p amount currency now in
          let done : (create_intent s p amount currency now db).1.tables.orders
              ≡ db.tables.orders ++ row ∷ [] =
            ground arith in
          rw done (Evolves-append db.tables.orders (row ∷ []))
    ]
  ]
]
