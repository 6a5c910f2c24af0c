-- ===== src/Service/Order/CancelGuards.antt =====
-- What a cancellation or chargeback callback must satisfy, and what a cancellation leaves alone.
use rs8kvn_bot.Common.{
  none, some, ◌≡◌, refl, arith, ◌⊎◌, String, Bool, true, false, ◌&&◌, ◌||◌, str_eq, eq_iff,
  Bool-cases, Option-cases, inl, inr, update_if, List, [], ◌∷◌, sym, any_of,
}
use rs8kvn_bot.Common.Text.{Text}
use rs8kvn_bot.Common.Int.{ℤ, ltb_ℤ, ◌≤ℤ◌}
use rs8kvn_bot.Database.Models.{Order, OrderStatus, is_pending, same_status}
use rs8kvn_bot.Database.Monad.{Db, Tables, Result, ok, err}
use rs8kvn_bot.Database.Orders.Chargeback.{cancel, cancel_order_cas, has_payment}
use rs8kvn_bot.Database.Orders.Intent.{get_order_by_provider_payment_id, platega}
use rs8kvn_bot.Service.World.{World}
use rs8kvn_bot.Service.Platega.{Parsed, parse_callback_amount}
use rs8kvn_bot.Service.Order.{OrderService, nil_uuid}
use rs8kvn_bot.Service.Order.Payload.{is_order_not_found}
use rs8kvn_bot.Service.Order.Guards.{Pays}
use rs8kvn_bot.Service.Order.Cancel.{
  Cancellation, canceled_status, chargebacked_status, when_canceled, cancel_pending,
  cancel_by_status, cancel_amount, cancel_found_order, cancel_payment_by_provider,
}

-- Whether the callback reports a transition.
abbrev pub transitions : Result Cancellation → Bool
transitions (ok (some o, b)) = true
transitions (ok (none, b)) = false
transitions (err e) = false

module _ (service : OrderService) (payment_id status : String) where
  amount-Pays :
      (amount : Text) (currency : String) (o : Order) (r : Parsed ℤ) (w : World)
      → transitions (cancel_amount service payment_id status amount currency o r w).0 ≡ true
      → (cents : ℤ) × (r ≡ Parsed.ok cents) × (o.amount_cents ≤ℤ cents)
  unfolding cancel_amount
  amount-Pays amount currency o (Parsed.err e) w h = cc
  amount-Pays amount currency o (Parsed.ok cents) w h = (cents, refl, ground arith)

  found-Pays :
      (amount : Text) (currency : String) (r : Result Order) (w : World)
      → transitions (cancel_found_order service payment_id status amount currency r w).0 ≡ true
      → (o : Order) × (r ≡ ok o) × Pays amount currency o
  unfolding cancel_found_order
  found-Pays amount currency (err e) w h = ground arith
  found-Pays amount currency (ok o) w h = elim (Bool-cases (str_eq o.currency currency)) [
    | inr other ↦ ground arith
    | inl same ↦
        let (cents, reads, covers) =
          amount-Pays amount currency o (parse_callback_amount amount) w (ground arith) in
        (o, refl, ((eq_iff o.currency currency).0 same, cents, reads, covers))
  ]

  -- A cancellation or chargeback that reports a transition has found the order of the payment, and
  -- carries its currency and an amount that covers its price.
  pub cancel_payment-Pays :
      (amount : Text) (currency : String) (w : World)
      → transitions (cancel_payment_by_provider service payment_id status amount currency w).0
        ≡ true
      → (o : Order) × ((get_order_by_provider_payment_id platega payment_id w.db).0 ≡ ok o)
        × Pays amount currency o
  unfolding cancel_payment_by_provider
  cancel_payment-Pays amount currency w h =
      let (r, db') = get_order_by_provider_payment_id platega payment_id w.db in
      found-Pays amount currency r (record w { db = db' }) (ground arith)

  -- the tables, but for orders of the payment that were pending, the log and the next id
  abbrev pub OnlyCancelsPending : Tables → Tables → Type 0
  OnlyCancelsPending t t' =
      (t'.subscriptions ≡ t.subscriptions)
      × (t'.subscription_nodes ≡ t.subscription_nodes)
      × ((t'.orders ≡ t.orders)
          ⊎ (t'.orders
              ≡ update_if (λ o. has_payment platega payment_id o && is_pending o.status) cancel
                  t.orders))

  unchanged : (t t' : Tables) → t' ≡ t → OnlyCancelsPending t t'
  unchanged t t' e = rw e (refl, refl, inl refl)

  after : (t t' t'' : Tables) → t' ≡ t → OnlyCancelsPending t' t'' → OnlyCancelsPending t t''
  after t t' t'' e h = rw (sym e) h

  same_pending : (s : OrderStatus) → (same_status s OrderStatus.pending || false) ≡ is_pending s
  same_pending OrderStatus.pending = refl
  same_pending OrderStatus.paid = refl
  same_pending OrderStatus.expired = refl
  same_pending OrderStatus.canceled = refl

  pending_update :
      (xs : List Order)
      → update_if
          (λ o.
            has_payment platega payment_id o
            && any_of (same_status o.status) (OrderStatus.pending ∷ []))
          cancel
          xs
        ≡ update_if (λ o. has_payment platega payment_id o && is_pending o.status) cancel xs
  pending_update [] = refl
  pending_update (x ∷ xs) = rw (same_pending x.status, pending_update xs) refl

  pending_cas :
      (db : Db)
      → OnlyCancelsPending db.tables
          (cancel_order_cas platega payment_id (OrderStatus.pending ∷ []) db).1.tables
  unfolding cancel_order_cas
  pending_cas db =
      let t' = (cancel_order_cas platega payment_id (OrderStatus.pending ∷ []) db).1.tables in
      elim (Option-cases (db.faults db.tick)) [
        | inr failed ↦ unchanged db.tables t' (ground arith)
        | inl fine ↦
            (ground arith, ground arith, inr (ground (arith, pending_update db.tables.orders)))
      ]

  when_canceled_quiet :
      (o : Order) (r : Result Bool) (w : World)
      → (when_canceled service payment_id status o r w).1.db ≡ w.db
  when_canceled_quiet o (ok true) w = refl
  when_canceled_quiet o (ok false) w = refl
  when_canceled_quiet o (err e) w = refl

  cancel_pending_only :
      (o : Order) (w : World)
      → OnlyCancelsPending w.db.tables (cancel_pending service payment_id status o w).1.db.tables
  unfolding cancel_pending
  cancel_pending_only o w =
      let (r, db') = cancel_order_cas platega payment_id (OrderStatus.pending ∷ []) w.db in
      rw (when_canceled_quiet o r (record w { db = db' })) (pending_cas w.db)

  amount_only :
      (amount : Text) (currency : String) (o : Order) (r : Parsed ℤ) (w : World)
      → str_eq status chargebacked_status ≡ false
      → OnlyCancelsPending w.db.tables
          (cancel_amount service payment_id status amount currency o r w).1.db.tables
  unfolding cancel_amount cancel_by_status
  amount_only amount currency o (Parsed.err e) w h = (refl, refl, inl refl)
  amount_only amount currency o (Parsed.ok cents) w h =
      elim (Bool-cases (ltb_ℤ cents o.amount_cents)) [
        | inl low ↦ rw low (refl, refl, inl refl)
        | inr high ↦ elim (Bool-cases (str_eq status canceled_status)) [
          | inl canceled ↦ rw (high, canceled, h) (cancel_pending_only o w)
          | inr other ↦ rw (high, other, h) (refl, refl, inl refl)
        ]
      ]

  found_only :
      (amount : Text) (currency : String) (r : Result Order) (w : World)
      → str_eq status chargebacked_status ≡ false
      → OnlyCancelsPending w.db.tables
          (cancel_found_order service payment_id status amount currency r w).1.db.tables
  unfolding cancel_found_order
  found_only amount currency (ok o) w h = elim (Bool-cases (str_eq o.currency currency)) [
    | inr other ↦ rw other (refl, refl, inl refl)
    | inl same ↦ rw same (amount_only amount currency o (parse_callback_amount amount) w h)
  ]
  found_only amount currency (err e) w h = elim (Bool-cases (is_order_not_found e)) [
    | inl missing ↦ rw missing (refl, refl, inl refl)
    | inr failed ↦ rw failed (refl, refl, inl refl)
  ]

  -- A callback that is not a chargeback changes no subscription and no binding, and of the orders
  -- at most the pending ones of its payment, which it cancels: a paid order is never undone by it,
  -- whatever it carries and whichever statements fail.
  pub cancel_payment_only_pending :
      (amount : Text) (currency : String) (w : World)
      → str_eq status chargebacked_status ≡ false
      → OnlyCancelsPending w.db.tables
          (cancel_payment_by_provider service payment_id status amount currency w).1.db.tables
  unfolding cancel_payment_by_provider get_order_by_provider_payment_id
  cancel_payment_only_pending amount currency w h = elim (Bool-cases service.has_payment_provider) [
    | inr disabled ↦ rw disabled (refl, refl, inl refl)
    | inl enabled ↦ elim (Bool-cases (str_eq payment_id nil_uuid)) [
      | inl nil ↦ rw (enabled, nil) (refl, refl, inl refl)
      | inr id ↦ elim (Option-cases service.lock_error) [
        | inr (e, busy) ↦ rw (enabled, id, busy) (refl, refl, inl refl)
        | inl free ↦
            let (r, db') = get_order_by_provider_payment_id platega payment_id w.db in
            let end =
              cancel_found_order service payment_id status amount currency r
                (record w { db = db' }) in
            let same : cancel_payment_by_provider service payment_id status amount currency w
                ≡ end =
              ground arith in
            rw same (
              after w.db.tables db'.tables (end.1.db.tables) (ground arith)
                (found_only amount currency r (record w { db = db' }) h))
      ]
    ]
  ]
