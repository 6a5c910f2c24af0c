-- ===== src/Service/Order/Guards.antt =====
-- What a payment callback must satisfy to activate, and what one that does not activate leaves.
use rs8kvn_bot.Common.{
  ◌+◌, ◌*◌, ◌≤◌, ◌⊎◌, Option, none, some, ◌≡◌, refl, arith, String, Bool, true, false, str_eq,
  eq_iff, Bool-cases, inl, inr,
}
use rs8kvn_bot.Common.Text.{Text}
use rs8kvn_bot.Common.Int.{ℤ, ltb_ℤ, ◌≤ℤ◌}
use rs8kvn_bot.Database.Models.{Time, minute, Order, OrderStatus}
use rs8kvn_bot.Database.Monad.{Result, ok, err}
use rs8kvn_bot.Service.World.{World}
use rs8kvn_bot.Service.Platega.{Parsed, parse_callback_amount}
use rs8kvn_bot.Service.Order.{OrderService}
use rs8kvn_bot.Service.Order.Confirm.{
  PaymentConfirmation, ignore_late, confirm_status, confirm_order, confirm_found, confirm_payment,
  confirm_amount, within_settlement_grace,
}
use rs8kvn_bot.Service.Order.Payload.{find_payment_order}

abbrev pub activates : Result PaymentConfirmation → Bool
activates (ok c) = c.activated
activates (err e) = false

-- The order's status admits a payment: it is pending, or it expired no more than five minutes after
-- the deadline of its link.
abbrev pub IsPayable : OrderService → Order → Type 0
IsPayable service order =
    (order.status ≡ OrderStatus.pending)
    ⊎ ((order.status ≡ OrderStatus.expired)
        × (deadline : Time) × (order.payment_expires_at ≡ some deadline)
        × (service.now ≤ deadline + 5 * minute))

-- The callback pays the order in full, in its currency.
abbrev pub Pays : Text → String → Order → Type 0
Pays amount currency order =
    (order.currency ≡ currency)
    × (cents : ℤ) × (parse_callback_amount amount ≡ Parsed.ok cents)
    × (order.amount_cents ≤ℤ cents)

module _ (service : OrderService) (payment_id : String) where
  expired_in_time :
      (o : Order) (limit : Option Time)
      → o.payment_expires_at ≡ limit
      → within_settlement_grace service.now o ≡ true
      → (deadline : Time) × (o.payment_expires_at ≡ some deadline)
        × (service.now ≤ deadline + 5 * minute)
  expired_in_time o none e h = absurd (ground arith)
  expired_in_time o (some t) e h = (t, e, ground arith)

  status-IsPayable :
      (cents : ℤ) (o : Order) (w : World)
      → activates (confirm_status service payment_id cents o w).0 ≡ true
      → IsPayable service o
  unfolding confirm_status ignore_late
  status-IsPayable cents o w h = by_status o.status refl
    where
      by_status : (s : OrderStatus) → o.status ≡ s → IsPayable service o
      by_status OrderStatus.pending k = inl k
      by_status OrderStatus.paid k = absurd (ground arith)
      by_status OrderStatus.canceled k = absurd (ground arith)
      by_status OrderStatus.expired k = elim (Bool-cases (within_settlement_grace service.now o)) [
        | inl early ↦
            let (t, e, le) = expired_in_time o o.payment_expires_at refl early in inr (k, t, e, le)
        | inr late ↦ absurd (ground arith)
      ]

  amount-Pays :
      (amount : Text) (currency : String) (o : Order) (r : Parsed ℤ) (w : World)
      → activates (confirm_amount service payment_id amount currency o r w).0 ≡ true
      → IsPayable service o × ((cents : ℤ) × (r ≡ Parsed.ok cents) × (o.amount_cents ≤ℤ cents))
  unfolding confirm_amount
  amount-Pays amount currency o (Parsed.err e) w h = cc
  amount-Pays amount currency o (Parsed.ok cents) w h =
      elim (Bool-cases (ltb_ℤ cents o.amount_cents)) [
        | inl low ↦ ground arith
        | inr high ↦ (status-IsPayable cents o w (ground arith), (cents, refl, ground arith))
      ]

  order-Pays :
      (amount : Text) (currency : String) (o : Order) (w : World)
      → activates (confirm_order service payment_id amount currency o w).0 ≡ true
      → IsPayable service o × Pays amount currency o
  unfolding confirm_order
  order-Pays amount currency o w h = elim (Bool-cases (str_eq o.currency currency)) [
    | inr other ↦ ground arith
    | inl same ↦
        let (payable, (cents, reads, covers)) =
          amount-Pays amount currency o (parse_callback_amount amount) w (ground arith) in
        (payable, ((eq_iff o.currency currency).0 same, cents, reads, covers))
  ]

  found-Pays :
      (amount : Text) (currency : String) (r : Result Order) (w : World)
      → activates (confirm_found service payment_id amount currency r w).0 ≡ true
      → (o : Order) × (r ≡ ok o) × IsPayable service o × Pays amount currency o
  unfolding confirm_found
  found-Pays amount currency (ok o) w h =
      let (payable, pays) = order-Pays amount currency o w h in (o, refl, payable, pays)
  found-Pays amount currency (err e) w h = ground arith

  -- A callback that activates has found an order, by the payment's id or by its payload, whose
  -- currency is the callback's and whose price the amount covers; the order was pending, or expired
  -- within five minutes of its link's deadline. In particular a paid or canceled order is never
  -- activated.
  pub confirm_payment-Pays :
      (payload amount : Text) (currency : String) (w : World)
      → activates (confirm_payment service payment_id payload amount currency w).0 ≡ true
      → (o : Order) × ((find_payment_order payment_id payload w).0 ≡ ok o)
        × IsPayable service o
        × Pays amount currency o
  unfolding confirm_payment
  confirm_payment-Pays payload amount currency w h =
      found-Pays amount currency (find_payment_order payment_id payload w).0
        (find_payment_order payment_id payload w).1 (ground arith)
