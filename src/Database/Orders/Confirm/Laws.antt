-- ===== src/Database/Orders/Confirm/Laws.antt =====
-- ConfirmOrderPaidCAS: atomic, at most once, and successful whenever the statements are.
use rs8kvn_bot.Common.{
  ℕ, suc, ◌+◌, Bool, true, false, Option, none, some, List, [], ◌∷◌, ◌≡◌, ◌≢◌, refl, ◌==◌, ◌*◌,
  ◌&&◌, if◌then◌else◌, ltb, arith, find, count_if, update_if, find-pass, Option-cases, inl, inr,
  update_if-none, count_if-found,
}
use rs8kvn_bot.Common.Int.{ℤ}
use rs8kvn_bot.Database.Models.{Time, day, Subscription, Product, Order}
use rs8kvn_bot.Database.Monad.{Db, Result, ok, err, transaction}
use rs8kvn_bot.Database.Monad.Runs.{transaction-err}
use rs8kvn_bot.Database.Orders.Confirm.{
  ApplyPlanInTx, calculate_payment_expiry, awaits_payment, mark_paid, renew, confirm_body,
  confirm_order_paid_cas, activate_subscription, is_some_after, time_or,
}
use rs8kvn_bot.Database.Orders.Confirm.Activation.{
  OnlyNodes, confirm_true_case, found_subscription, found_order, paid_db,
  activate_subscription_same_plan,
}

-- Paying leaves no row that still awaits payment.
count_if-mark_paid :
    (id : ℕ) (a b c : Time) (z : ℤ) (xs : List Order)
    → count_if (awaits_payment id) (update_if (awaits_payment id) (mark_paid a b c z) xs) ≡ 0
count_if-mark_paid id a b c z [] = refl
count_if-mark_paid id a b c z (x ∷ xs) = ground (arith, count_if-mark_paid id a b c z xs)

-- Whether a confirmation reports an activation.
abbrev pub activated : Result (Bool × Subscription) → Bool
activated (ok (b, _)) = b
activated (err _) = false

module _ (order_id : ℕ) (now : Time) (sub : Subscription) (product : Product)
    (apply : ApplyPlanInTx) (cents : ℤ) (db : Db) where
  abbrev run : Result (Bool × Subscription) × Db
  run = confirm_order_paid_cas order_id now now sub product apply cents db

  confirm_true_found :
      (renewed : Subscription)
      → run.0 ≡ ok (true, renewed)
      → (find (λ s. s.id == sub.id) db.tables.subscriptions ≢ none)
        × (find (λ o. o.id == order_id) db.tables.orders ≢ none)
  unfolding confirm_order_paid_cas confirm_body transaction
  confirm_true_found renewed h = ground arith

  confirm_false_unchanged :
      (kept : Subscription) → run.0 ≡ ok (false, kept) → run.1.tables ≡ db.tables
  unfolding confirm_order_paid_cas confirm_body transaction activate_subscription
  confirm_false_unchanged kept h =
      let expiry =
        λ (current : Subscription). calculate_payment_expiry now (some current) (some product) in
      elim (Option-cases (find (λ s. s.id == sub.id) db.tables.subscriptions)) [
        | inl e ↦ ground arith
        | inr (current, e) ↦ ground (
          arith,
          update_if-none (awaits_payment order_id) (mark_paid now now (expiry current) cents)
              db.tables.orders,
        )
      ]

  unactivated_case :
      (r : Result (Bool × Subscription))
      → run.0 ≡ r
      → activated r ≡ false
      → run.1.tables ≡ db.tables
  unactivated_case (ok (true, s)) e h = cc
  unactivated_case (ok (false, s)) e h = confirm_false_unchanged s e
  unactivated_case (err x) e h =
      unfold confirm_order_paid_cas in
      transaction-err (confirm_body order_id now now sub product apply cents) db e

  activated_case :
      (r : Result (Bool × Subscription))
      → run.0 ≡ r
      → activated r ≡ true
      → (renewed : Subscription) × (run.0 ≡ ok (true, renewed))
  activated_case (ok (true, s)) e h = (s, e)
  activated_case (ok (false, s)) e h = cc
  activated_case (err x) e h = cc

  -- A confirmation that does not report an activation, because a statement failed, a row is
  -- missing or the order no longer awaits payment, has left every table as it was.
  pub confirm_unactivated_unchanged : activated run.0 ≡ false → run.1.tables ≡ db.tables
  confirm_unactivated_unchanged h = unactivated_case run.0 refl h

  activated_from :
      (renewed : Subscription)
      → OnlyNodes apply
      → run.0 ≡ ok (true, renewed)
      → (expiry : Time) × (run.1.tables.orders
          ≡ update_if (awaits_payment order_id) (mark_paid now now expiry cents) db.tables.orders)
  activated_from renewed only h =
      elim (Option-cases (found_subscription order_id now sub product apply cents db)) [
        | inl e ↦ absurd ((confirm_true_found renewed h).0 e)
        | inr (current, e) ↦
            elim (Option-cases (found_order order_id now sub product apply cents db)) [
              | inl e' ↦ absurd ((confirm_true_found renewed h).1 e')
              | inr (order, e') ↦
                  let after =
                    confirm_true_case order_id now sub product apply cents db current order renewed
                      only e e' h in
                  (calculate_payment_expiry now (some current) (some product), after.2)
            ]
      ]

  -- The orders after an activation.
  pub activated_orders :
      OnlyNodes apply
      → activated run.0 ≡ true
      → (expiry : Time) × (run.1.tables.orders
          ≡ update_if (awaits_payment order_id) (mark_paid now now expiry cents) db.tables.orders)
  activated_orders only h =
      let (renewed, e) = activated_case run.0 refl h in activated_from renewed only e

-- no row awaits payment: the confirmation does nothing
confirm_none_awaits :
    (order_id : ℕ) (now : Time) (sub : Subscription) (product : Product) (apply : ApplyPlanInTx)
    (cents : ℤ) (db : Db)
    → count_if (awaits_payment order_id) db.tables.orders ≡ 0
    → activated (confirm_order_paid_cas order_id now now sub product apply cents db).0 ≡ false
unfolding confirm_order_paid_cas confirm_body transaction
confirm_none_awaits order_id now sub product apply cents db h =
    elim (Option-cases (find (λ s. s.id == sub.id) db.tables.subscriptions)) [
      | inl e ↦ ground arith
      | inr (current, e) ↦ ground arith
    ]

-- After a confirmation that activated, a second one of the same order, in a database whose orders
-- are those that the first one left, activates nothing and leaves every table, whatever its time,
-- amount, subscription, product and plan change and whichever of its statements fail. (The plan
-- change of the first call writes neither orders nor subscriptions. In each of the two calls the
-- time of payment is the time of activation, as the service passes them.)
pub confirm_once :
    (order_id : ℕ) (now later : Time) (sub sub' : Subscription) (product product' : Product)
    (apply apply' : ApplyPlanInTx) (cents cents' : ℤ) (db db' : Db)
    → OnlyNodes apply
    → activated (confirm_order_paid_cas order_id now now sub product apply cents db).0 ≡ true
    → db'.tables.orders
      ≡ (confirm_order_paid_cas order_id now now sub product apply cents db).1.tables.orders
    → let again = confirm_order_paid_cas order_id later later sub' product' apply' cents' db' in
      (activated again.0 ≡ false) × (again.1.tables ≡ db'.tables)
confirm_once order_id now later sub sub' product product' apply apply' cents cents' db db' only h
      e =
    let (expiry, paid) = activated_orders order_id now sub product apply cents db only h in
    let quiet =
      confirm_none_awaits order_id later sub' product' apply' cents' db'
        (rw (e, paid) (count_if-mark_paid order_id now now expiry cents db.tables.orders)) in
    (quiet, confirm_unactivated_unchanged order_id later sub' product' apply' cents' db' quiet)

pub confirm_renews_same_plan :
    (order_id : ℕ) (now : Time) (sub : Subscription) (product : Product) (apply : ApplyPlanInTx)
    (cents : ℤ) (db : Db) (current : Subscription) (order : Order)
    → ((n : ℕ) → db.faults n ≡ none)
    → find (λ s. s.id == sub.id) db.tables.subscriptions ≡ some current
    → find (λ o. o.id == order_id) db.tables.orders ≡ some order
    → awaits_payment order_id order ≡ true
    → current.plan_id ≡ product.plan_id
    → let expiry = calculate_payment_expiry now (some current) (some product) in
      let (r, db') = confirm_order_paid_cas order_id now now sub product apply cents db in
      (r ≡ ok (true, renew now expiry product current))
      × (db'.tables.orders
          ≡ update_if (awaits_payment order_id) (mark_paid now now expiry cents) db.tables.orders)
      × (db'.tables.subscriptions
          ≡ update_if (λ s. s.id == sub.id) (renew now expiry product) db.tables.subscriptions)
      × (db'.tables.subscription_nodes ≡ db.tables.subscription_nodes)
unfolding confirm_order_paid_cas confirm_body transaction
confirm_renews_same_plan order_id now sub product apply cents db current order calm fs fo aw same =
    let row = count_if-found _ (awaits_payment order_id) db.tables.orders order fo aw in
    let owner =
      count_if-found _ (λ s. s.id == sub.id) db.tables.subscriptions current fs
        (find-pass _ db.tables.subscriptions current fs) in
    let expiry = calculate_payment_expiry now (some current) (some product) in
    ground (
      arith,
      row,
      owner,
      calm db.tick,
      calm (suc db.tick),
      calm (suc (suc db.tick)),
      calm (suc (suc (suc (suc (suc (suc db.tick)))))),
      activate_subscription_same_plan order current now expiry sub.id product apply
          (paid_db order_id now sub product apply cents db expiry) calm owner same,
    )

abbrev pub later : Time → Time → Time
later a b = if ltb a b then b else a

-- A paid term is added to the later of now and the running expiry when the plan stays, and to now
-- when the plan changes.
pub payment_expiry :
    (now : Time) (sub : Subscription) (product : Product)
    → calculate_payment_expiry now (some sub) (some product)
      ≡ (if sub.plan_id == product.plan_id then later now (time_or sub.expires_at now) else now)
        + product.duration_days * day
unfolding calculate_payment_expiry
payment_expiry now sub product = expiry_of sub.expires_at (sub.plan_id == product.plan_id)
  where
    expiry_of :
        (e : Option Time) (same : Bool)
        → (if same && is_some_after e now then time_or e now else now) + product.duration_days * day
          ≡ (if same then later now (time_or e now) else now) + product.duration_days * day
    expiry_of none true = ground arith
    expiry_of none false = refl
    expiry_of (some t) true = ground arith
    expiry_of (some t) false = refl
