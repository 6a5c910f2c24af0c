-- ===== src/Service/Order/Once/Lookup.antt =====
-- The order that a payment's callback finds, before and after it is paid.
use rs8kvn_bot.Common.{
  ℕ, Option, none, some, ◌≡◌, ◌≢◌, refl, arith, String, true, str_eq, eq_iff, Bool-cases, inl, inr,
  find, update_if, List, [], ◌∷◌, count_if,
}
use rs8kvn_bot.Common.Text.{Text, parse_uint, trim_space}
use rs8kvn_bot.Common.Int.{ℤ}
use rs8kvn_bot.Database.Models.{Time, Order}
use rs8kvn_bot.Database.Monad.{Db, Error, Result, ok, err}
use rs8kvn_bot.Database.Orders.Confirm.{awaits_payment, mark_paid}
use rs8kvn_bot.Database.Orders.Chargeback.{has_payment}
use rs8kvn_bot.Database.Orders.Intent.{
  get_order_by_provider_payment_id, get_order_by_id, attach_provider_payment_id, platega,
  unattached, attached,
}
use rs8kvn_bot.Service.World.{World, continue}
use rs8kvn_bot.Service.Order.Payload.{
  find_payment_order, or_by_payload, order_by_callback_payload, attach_order, is_order_not_found,
}

-- The row of the payment has the id.
abbrev pub Points : String → ℕ → List Order → Type 0
Points p id orders = (r : Order) × (find (has_payment platega p) orders ≡ some r) × (r.id ≡ id)

str_eq_refl : (s : String) → str_eq s s ≡ true
str_eq_refl s = (eq_iff s s).1 refl

-- Attaching the payment to orders without one makes them the payment's.
attached-Points :
    (p : String) (id : ℕ) (xs : List Order)
    → find (has_payment platega p) xs ≡ none
    → count_if (unattached id) xs ≢ 0
    → Points p id (update_if (unattached id) (attached p) xs)
attached-Points p id [] h k = absurd (k refl)
attached-Points p id (x ∷ xs) h k = elim (Bool-cases (unattached id x)) [
  | inl here ↦ (attached p x, rw (here, str_eq_refl p) refl, ground arith)
  | inr there ↦
      let (r, e, same) = attached-Points p id xs (ground arith) (λ z. k (ground arith)) in
      (r, ground arith, same)
]

-- Paying keeps the payment's row.
pub paid-Points :
    (p : String) (id i : ℕ) (a b c : Time) (z : ℤ) (xs : List Order)
    → Points p id xs
    → Points p id (update_if (awaits_payment i) (mark_paid a b c z) xs)
paid-Points p id i a b c z [] (r, e, same) = cc
paid-Points p id i a b c z (x ∷ xs) (r, e, same) = elim (Bool-cases (has_payment platega p x)) [
  | inl here ↦ elim (Bool-cases (awaits_payment i x)) [
    | inl pays ↦ (mark_paid a b c z x, ground arith, ground arith)
    | inr not_paid ↦ (x, ground arith, ground arith)
  ]
  | inr there ↦
      let (r', e', same') = paid-Points p id i a b c z xs (r, ground arith, same) in
      (r', ground arith, same')
]

attach_order-Points :
    (p : String) (o o' : Order) (w w' : World)
    → find (has_payment platega p) w.db.tables.orders ≡ none
    → attach_order p o w ≡ (ok o', w')
    → (o'.id ≡ o.id) × Points p o.id w'.db.tables.orders
unfolding attach_provider_payment_id
attach_order-Points p o o' w w' h e =
    let changed : w'.db.tables.orders
        ≡ update_if (unattached o.id) (attached p) w.db.tables.orders =
      ground arith in
    (ground arith, rw changed (attached-Points p o.id w.db.tables.orders h (ground arith)))

by_id_reads : (id : ℕ) (db : Db) → (get_order_by_id id db).1.tables ≡ db.tables
unfolding get_order_by_id
by_id_reads id db = ground arith

payload-Points :
    (p : String) (payload : Text) (o : Order) (w w' : World)
    → find (has_payment platega p) w.db.tables.orders ≡ none
    → order_by_callback_payload payload p w ≡ (ok o, w')
    → Points p o.id w'.db.tables.orders
unfolding order_by_callback_payload
payload-Points p payload o w w' h e = of_number (parse_uint (trim_space payload)) refl
  where
    of_order :
        (id : ℕ) (r : Result Order × Db)
        → get_order_by_id id w.db ≡ r
        → r.1.tables ≡ w.db.tables
        → continue (attach_order p) (r.0, record w { db = r.1 }) ≡ (ok o, w')
        → Points p o.id w'.db.tables.orders
    of_order id (ok x, db') k same g =
        let (eq, found) = attach_order-Points p x o (record w { db = db' }) w' (ground arith) g in
        rw eq found
    of_order id (err y, db') k same g = cc

    of_number :
        (n : Option ℕ) → parse_uint (trim_space payload) ≡ n → Points p o.id w'.db.tables.orders
    of_number none k = absurd (ground arith)
    of_number (some id) k =
        of_order id (get_order_by_id id w.db) refl (by_id_reads id w.db) (ground arith)

-- what the first lookup of a callback answers
by_payment_found :
    (p : String) (db db' : Db) (o : Order)
    → get_order_by_provider_payment_id platega p db ≡ (ok o, db')
    → (find (has_payment platega p) db.tables.orders ≡ some o) × (db'.tables ≡ db.tables)
unfolding get_order_by_provider_payment_id
by_payment_found p db db' o h = ground arith

by_payment_missing :
    (p : String) (db db' : Db) (e : Error)
    → get_order_by_provider_payment_id platega p db ≡ (err e, db')
    → is_order_not_found e ≡ true
    → (find (has_payment platega p) db.tables.orders ≡ none) × (db'.tables ≡ db.tables)
unfolding get_order_by_provider_payment_id
by_payment_missing p db db' e h k = ground arith

-- The order that a callback found is, afterwards, the one that its payment's id finds.
pub find-Points :
    (p : String) (payload : Text) (o : Order) (w w' : World)
    → find_payment_order p payload w ≡ (ok o, w')
    → Points p o.id w'.db.tables.orders
unfolding find_payment_order
find-Points p payload o w w' h = of_answer (get_order_by_provider_payment_id platega p w.db) refl h
  where
    of_answer :
        (r : Result Order × Db)
        → get_order_by_provider_payment_id platega p w.db ≡ r
        → or_by_payload payload p (r.0) (record w { db = r.1 }) ≡ (ok o, w')
        → Points p o.id w'.db.tables.orders
    of_answer (ok x, db') k g =
        let (found, same) = by_payment_found p w.db db' x k in (x, ground arith, ground arith)
    of_answer (err e, db') k g = elim (Bool-cases (is_order_not_found e)) [
      | inr failed ↦ absurd (ground arith)
      | inl missing ↦
          let (nothing, same) = by_payment_missing p w.db db' e k missing in
          payload-Points p payload o (record w { db = db' }) w' (ground arith) (ground arith)
    ]

-- A payment whose row is known finds that row, and reads only.
pub lookup-eq :
    (p : String) (payload : Text) (id : ℕ) (o : Order) (w : World)
    → Points p id w.db.tables.orders
    → (find_payment_order p payload w).0 ≡ ok o
    → (o.id ≡ id) × ((find_payment_order p payload w).1.db.tables ≡ w.db.tables)
unfolding find_payment_order get_order_by_provider_payment_id
lookup-eq p payload id o w (r, e, same) h = (ground arith, ground arith)
