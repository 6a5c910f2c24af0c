-- ===== src/Database/Orders/Intent/Laws.antt =====
-- FindOrCreatePendingPaymentOrder returns the one intent of the pair, and it is in the table.
use rs8kvn_bot.Common.{
  ℕ, suc, true, false, not, ◌||◌, Option, none, some, String, List, ◌≡◌, ◌≢◌, refl, ap, arith, find,
  count_if, Option-cases, Bool-cases, inl, inr, count_if-any_of, find-pass, find-none-count_if,
  count_if-found, ◌⊎◌,
}
use rs8kvn_bot.Common.Int.{ℤ}
use rs8kvn_bot.Database.Models.{Time, Order, AuditLog}
use rs8kvn_bot.Database.Monad.{
  Db, Tables, Result, ok, err, Error, transaction, is_ok, IsCalm, ok_value,
}
use rs8kvn_bot.Database.Orders.Intent.{
  pending_for, link_expired, insert_row, accepts_intent, find_or_create_body,
  find_or_create_pending_payment_order, reload_winner,
}
use rs8kvn_bot.Database.Orders.Intent.Validity
use rs8kvn_bot.Database.Orders.Intent.Validity.{
  IsValid, expired_rows, expire-clears, expired_rows-IsValid,
}

module _ (sub_id product_id : ℕ) where
  reload_winner_ne :
      (e : Error) (db : Db)
      → e ≢ Error.unique_constraint
      → reload_winner sub_id product_id e db ≡ (err e, db)
  reload_winner_ne (Error.fault f) db h = refl
  reload_winner_ne Error.unique_constraint db h = absurd (h refl)
  reload_winner_ne _ db h = refl

module _ (sub_id product_id : ℕ) (amount : ℤ) (currency : String) (now : Time) where
  abbrev intent_row : Tables → Order
  intent_row = Validity.intent_row sub_id product_id amount currency now

  -- What a successful call promises of the intent and the table.
  pub record Offers (o : Order) (t : Tables) : Type 0 where
    pub valid : IsValid t
    pub stored : find (pending_for sub_id product_id) t.orders ≡ some o
    pub single : count_if (pending_for sub_id product_id) t.orders ≡ 1
    pub unexpired :
        (o.payment_creation_uncertain ≡ true) ⊎ (link_expired o.payment_expires_at now ≡ false)

  Offers-insert_row :
      (t : Tables)
      → IsValid t
      → count_if (pending_for sub_id product_id) t.orders ≡ 0
      → Offers (intent_row t) (insert_row t (intent_row t))
  Offers-insert_row t v free =
      let w = Validity.insert_row-IsValid sub_id product_id amount currency now t v free in
      let f = Validity.find-insert_row sub_id product_id amount currency now t free in
      record {
        valid = w;
        stored = f;
        single = omega (
          arith,
          w.one_intent sub_id product_id,
          count_if-found (pending_for sub_id product_id) (pending_for sub_id product_id)
              (insert_row t (intent_row t)).orders (intent_row t) f
              (find-pass _ (insert_row t (intent_row t)).orders (intent_row t) f),
        );
        unexpired = inr refl;
      }

  Offers-found :
      (t : Tables) (o : Order)
      → IsValid t
      → find (pending_for sub_id product_id) t.orders ≡ some o
      → (o.payment_creation_uncertain || not (link_expired o.payment_expires_at now)) ≡ true
      → Offers o t
  Offers-found t o v f h = record {
    valid = v;
    stored = f;
    single = omega (
      arith,
      v.one_intent sub_id product_id,
      count_if-found (pending_for sub_id product_id) (pending_for sub_id product_id) t.orders o f
          (find-pass _ t.orders o f),
    );
    unexpired = ground arith;
  }

  -- how the body ends, by what the first query found
  body-none :
      (db : Db) (o : Order) (x : Option Order) (db' : Db)
      → find (pending_for sub_id product_id) db.tables.orders ≡ none
      → find_or_create_body sub_id product_id amount currency now db ≡ (ok (o, x), db')
      → (o ≡ intent_row db.tables) × (db'.tables ≡ insert_row db.tables o)
  unfolding find_or_create_body
  body-none db o x db' f h = ground arith

  body-kept :
      (db : Db) (found o : Order) (x : Option Order) (db' : Db)
      → find (pending_for sub_id product_id) db.tables.orders ≡ some found
      → (found.payment_creation_uncertain || not (link_expired found.payment_expires_at now)) ≡ true
      → find_or_create_body sub_id product_id amount currency now db ≡ (ok (o, x), db')
      → (o ≡ found) × (db'.tables ≡ db.tables)
  unfolding find_or_create_body
  body-kept db found o x db' f k h = ground arith

  body-replaced :
      (db : Db) (found o : Order) (x : Option Order) (db' : Db)
      → find (pending_for sub_id product_id) db.tables.orders ≡ some found
      → (found.payment_creation_uncertain || not (link_expired found.payment_expires_at now))
        ≡ false
      → find_or_create_body sub_id product_id amount currency now db ≡ (ok (o, x), db')
      → (o ≡ intent_row (expired_rows found.id db.tables))
        × (db'.tables ≡ insert_row (expired_rows found.id db.tables) o)
  unfolding find_or_create_body
  body-replaced db found o x db' f k h = ground arith

  -- The index is never violated: the transaction has made room.
  body-ne_unique :
      (db : Db)
      → IsValid db.tables
      → (find_or_create_body sub_id product_id amount currency now db).0
        ≢ err Error.unique_constraint
  unfolding find_or_create_body
  body-ne_unique db v =
      elim (Option-cases (find (pending_for sub_id product_id) db.tables.orders)) [
        | inl e ↦ ground (
          arith,
          find-none-count_if (pending_for sub_id product_id) db.tables.orders e,
          count_if-any_of (pending_for sub_id product_id) db.tables.orders,
        )
        | inr (o, e) ↦ ground (
          arith,
          expire-clears sub_id product_id o db.tables.orders e (v.one_intent sub_id product_id),
          count_if-any_of (pending_for sub_id product_id) (expired_rows o.id db.tables).orders,
        )
      ]

  body-Offers :
      (db : Db) (o : Order) (x : Option Order) (db' : Db)
      → IsValid db.tables
      → find_or_create_body sub_id product_id amount currency now db ≡ (ok (o, x), db')
      → Offers o db'.tables
  body-Offers db o x db' v h =
      elim (Option-cases (find (pending_for sub_id product_id) db.tables.orders)) [
        | inl e ↦
            let (row, after) = body-none db o x db' e h in
            rw (after, row)
              (Offers-insert_row db.tables v
                (find-none-count_if (pending_for sub_id product_id) db.tables.orders e))
        | inr (found, e) ↦
            elim (Bool-cases (
              found.payment_creation_uncertain
              || not (link_expired found.payment_expires_at now))) [
                | inl keep ↦
                    let (row, after) = body-kept db found o x db' e keep h in
                    rw (after, row) (Offers-found db.tables found v e keep)
                | inr old ↦
                    let (row, after) = body-replaced db found o x db' e old h in
                    rw (after, row)
                      (Offers-insert_row (expired_rows found.id db.tables)
                        (expired_rows-IsValid found.id db.tables v)
                        (expire-clears sub_id product_id found db.tables.orders e
                          (v.one_intent sub_id product_id)))
              ]
      ]

  -- the audit of an expired intent writes the audit log alone
  Offers-audit :
      (o : Order) (t : Tables) (l : List AuditLog)
      → Offers o t
      → Offers o (record t { audit_log = l })
  Offers-audit o t l h = record {
    valid = record {
      one_intent = h.valid.one_intent;
      one_id = h.valid.one_id;
      ids_given = h.valid.ids_given;
    };
    stored = h.stored;
    single = h.single;
    unexpired = h.unexpired;
  }

  abbrev call : Db → Result Order × Db
  call = find_or_create_pending_payment_order sub_id product_id amount currency now

  call_some :
      (db : Db) (o p : Order) (x : Option Order) (db' : Db)
      → find_or_create_body sub_id product_id amount currency now db ≡ (ok (p, x), db')
      → (call db).0 ≡ ok o
      → (p ≡ o)
        × ((call db).1.tables ≡ record db'.tables { audit_log = (call db).1.tables.audit_log })
  unfolding find_or_create_pending_payment_order transaction
  call_some db o p x db' e h = ground arith

  call_err :
      (db : Db) (y : Error) (db' : Db)
      → find_or_create_body sub_id product_id amount currency now db ≡ (err y, db')
      → y ≢ Error.unique_constraint
      → ((call db).0 ≡ err y) × ((call db).1.tables ≡ db.tables)
  unfolding find_or_create_pending_payment_order transaction
  call_err db y db' e ne =
      ground (arith, reload_winner_ne sub_id product_id y (record db' { tables = db.tables }) ne)

  Offers-case :
      (db : Db) (o : Order) (r : Result (Order × Option Order) × Db)
      → IsValid db.tables
      → (call db).0 ≡ ok o
      → find_or_create_body sub_id product_id amount currency now db ≡ r
      → Offers o (call db).1.tables
  Offers-case db o (ok (p, x), db') v h e =
      let (same, after) = call_some db o p x db' e h in
      rw after (Offers-audit o db'.tables _ (rw same at (body-Offers db p x db' v e)))
  Offers-case db o (err y, db') v h e =
      let (failed, kept) = call_err db y db' e (λ u. body-ne_unique db v (rw e (ap err u))) in cc

  -- In a well-formed table, when the call returns an intent, whatever statements of the best-effort
  -- audit failed: the table is still well formed, the intent is the one pending order of the
  -- subscription and the product in it, and either its creation at the provider is uncertain or no
  -- expiry of a link that has passed is recorded in it; it may have no link yet.
  pub find_or_create-Offers :
      (db : Db) (o : Order) → IsValid db.tables → (call db).0 ≡ ok o → Offers o (call db).1.tables
  find_or_create-Offers db o v h =
      Offers-case db o (find_or_create_body sub_id product_id amount currency now db) v h refl

  body_calm :
      (db : Db)
      → IsCalm db
      → IsValid db.tables
      → accepts_intent db.tables sub_id product_id amount ≡ true
      → (is_ok (find_or_create_body sub_id product_id amount currency now db).0 ≡ true)
        × ((find_or_create_body sub_id product_id amount currency now db).1.faults ≡ db.faults)
  unfolding find_or_create_body
  body_calm db calm v a =
      elim (Option-cases (find (pending_for sub_id product_id) db.tables.orders)) [
        | inl e ↦ ground (
          arith,
          calm db.tick,
          calm (suc db.tick),
          find-none-count_if (pending_for sub_id product_id) db.tables.orders e,
          count_if-any_of (pending_for sub_id product_id) db.tables.orders,
        )
        | inr (o, e) ↦ ground (
          arith,
          calm db.tick,
          calm (suc db.tick),
          calm (suc (suc db.tick)),
          expire-clears sub_id product_id o db.tables.orders e (v.one_intent sub_id product_id),
          count_if-any_of (pending_for sub_id product_id) (expired_rows o.id db.tables).orders,
        )
      ]

  call_calm :
      (db : Db)
      → IsCalm db
      → IsValid db.tables
      → accepts_intent db.tables sub_id product_id amount ≡ true
      → is_ok (call db).0 ≡ true
  unfolding find_or_create_pending_payment_order transaction
  call_calm db calm v a =
      let (done, same) = body_calm db calm v a in
      let end = (find_or_create_body sub_id product_id amount currency now db).1.tick in
      ground (arith, calm end)

  -- With no failing statement, in a well-formed table that has the subscription and the product, the
  -- call returns an intent for every amount that is not negative.
  pub find_or_create_returns :
      (db : Db)
      → IsCalm db
      → IsValid db.tables
      → accepts_intent db.tables sub_id product_id amount ≡ true
      → (o : Order) × ((call db).0 ≡ ok o) × Offers o (call db).1.tables
  find_or_create_returns db calm v a =
      let (o, e) = ok_value (call db).0 (call_calm db calm v a) in
      (o, e, find_or_create-Offers db o v e)
