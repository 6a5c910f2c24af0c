-- ===== src/Database/Products/Laws.antt =====
-- UpdateProductGuarded: the terms that orders refer to stay.
use rs8kvn_bot.Common.{
  ℕ, true, some, List, [], ◌∷◌, ◌≡◌, ◌≢◌, refl, arith, str_eq, eq_iff, ◌==◌, find, update_if,
  count_if, Bool-cases, inl, inr, String,
}
use rs8kvn_bot.Common.Int.{ℤ, pos, negsuc, eqb_ℤ}
use rs8kvn_bot.Database.Models.{Product}
use rs8kvn_bot.Database.Monad.{Db, Result, ok, err}
use rs8kvn_bot.Database.Monad.Runs.{transaction-err, transaction-eq-ok}
use rs8kvn_bot.Database.Products.{
  get_product_by_id, has_id, same_terms, set_active, set_columns, update_product_body,
  update_product_guarded,
}

-- What an order refers to.
pub record SameTerms (a b : Product) : Type 0 where
  pub same_name : b.name ≡ a.name
  pub same_plan : b.plan_id ≡ a.plan_id
  pub same_duration : b.duration_days ≡ a.duration_days
  pub same_price : b.price_cents ≡ a.price_cents
  pub same_currency : b.currency ≡ a.currency

eqb_ℤ→eq : (a b : ℤ) → eqb_ℤ a b ≡ true → a ≡ b
eqb_ℤ→eq (pos a) (pos b) h = ground arith
eqb_ℤ→eq (negsuc a) (negsuc b) h = ground arith
eqb_ℤ→eq (pos a) (negsuc b) h = ground arith
eqb_ℤ→eq (negsuc a) (pos b) h = ground arith

str_eq→eq : (a b : String) → str_eq a b ≡ true → b ≡ a
str_eq→eq a b h = ground (arith, (eq_iff a b).0)

same_terms-SameTerms : (a b : Product) → same_terms a b ≡ true → SameTerms a b
same_terms-SameTerms a b h = record {
  same_name = str_eq→eq a.name b.name (ground arith);
  same_plan = ground arith;
  same_duration = ground arith;
  same_price = ground (arith, eqb_ℤ→eq a.price_cents b.price_cents);
  same_currency = str_eq→eq a.currency b.currency (ground arith);
}

find-update_if :
    (id : ℕ) (f : Product → Product) (xs : List Product) (p : Product)
    → ((q : Product) → (f q).id ≡ q.id)
    → find (has_id id) xs ≡ some p
    → find (has_id id) (update_if (has_id id) f xs) ≡ some (f p)
find-update_if id f [] p keeps h = cc
find-update_if id f (x ∷ xs) p keeps h = ground (arith, keeps x, find-update_if id f xs p keeps)

module _ (product current : Product) (db : Db)
    (referred : count_if (λ o. o.product_id == product.id) db.tables.orders ≢ 0)
    (found : find (has_id product.id) db.tables.products ≡ some current) where
  body_ok :
      (db' : Db)
      → update_product_body product db ≡ (ok tt, db')
      → (same_terms current product ≡ true)
        × (db'.tables.products
            ≡ update_if
                (has_id product.id)
                (set_columns product)
                (update_if (has_id product.id) (set_active current.is_active) db.tables.products))
  unfolding update_product_body get_product_by_id
  body_ok db' h = ground arith

  SameTerms-columns :
      same_terms current product ≡ true
      → SameTerms current (set_columns product (set_active current.is_active current))
  SameTerms-columns h =
      let t = same_terms-SameTerms current product h in
      record {
        same_name = t.same_name;
        same_plan = t.same_plan;
        same_duration = t.same_duration;
        same_price = t.same_price;
        same_currency = t.same_currency;
      }

  outcome :
      (r : Result (Unit {0}))
      → (update_product_guarded product db).0 ≡ r
      → (p : Product) × (find
            (has_id product.id)
            (update_product_guarded product db).1.tables.products
          ≡ some p)
        × SameTerms current p
  unfolding update_product_guarded
  outcome (err e) h = elim (Bool-cases (product.id == 0)) [
    | inl zero ↦ (
      current,
      ground arith,
      record {
        same_name = refl;
        same_plan = refl;
        same_duration = refl;
        same_price = refl;
        same_currency = refl;
      },
    )
    | inr positive ↦ (
      current,
      ground (arith, transaction-err (update_product_body product) db {e = e}),
      record {
        same_name = refl;
        same_plan = refl;
        same_duration = refl;
        same_price = refl;
        same_currency = refl;
      },
    )
  ]
  outcome (ok u) h = elim (Bool-cases (product.id == 0)) [
    | inl zero ↦ absurd (ground arith)
    | inr positive ↦
        let (db', run, after) =
          transaction-eq-ok (update_product_body product) db {a = tt} (ground arith) in
        let (same, products) = body_ok db' run in
        let active = set_active current.is_active in
        let first = find-update_if product.id active db.tables.products current (λ q. refl) found in
        let second =
          find-update_if product.id (set_columns product)
            (update_if (has_id product.id) active db.tables.products) (active current) (λ q. refl)
            first in
        (set_columns product (active current), ground arith, SameTerms-columns same)
  ]

  -- A guarded update of a product that some order refers to keeps the product's name, plan,
  -- duration, price and currency, whatever the new values are and whichever statements fail.
  pub update_product_guarded-SameTerms :
      (p : Product) × (find
          (has_id product.id)
          (update_product_guarded product db).1.tables.products
        ≡ some p)
      × SameTerms current p
  update_product_guarded-SameTerms = outcome (update_product_guarded product db).0 refl
