-- ===== src/Database/Orders/Intent/Validity.antt =====
-- The orders table stays well formed when an intent expires and when one is inserted.
use rs8kvn_bot.Common.{
  ℕ, ◌≤◌, ◌<◌, true, some, String, List, [], ◌∷◌, ◌≡◌, refl, ◌==◌, arith, find, count_if, update_if,
  All, count_if-append, find-append, count_if-update_if-le, count_if-update_if-eq, All-update_if,
  All-append, ==_refl, All-map,
}
use rs8kvn_bot.Common.Int.{ℤ}
use rs8kvn_bot.Database.Models.{Time, Order}
use rs8kvn_bot.Database.Monad.{Tables}
use rs8kvn_bot.Database.Orders.Intent.{pending_for, pending_with_id, expire, new_intent, insert_row}

-- At most one pending intent for a subscription and a product, and ids given out once.
pub record IsValid (t : Tables) : Type 0 where
  pub one_intent : (s p : ℕ) → count_if (pending_for s p) t.orders ≤ 1
  pub one_id : (i : ℕ) → count_if (λ o. o.id == i) t.orders ≤ 1
  pub ids_given : All (λ o. o.id < t.next_order_id) t.orders

-- Expiring the intent that was found leaves none.
pub expire-clears :
    (s p : ℕ) (o : Order) (xs : List Order)
    → find (pending_for s p) xs ≡ some o
    → count_if (pending_for s p) xs ≤ 1
    → count_if (pending_for s p) (update_if (pending_with_id o.id) expire xs) ≡ 0
expire-clears s p o [] h k = cc
expire-clears s p o (x ∷ xs) h k = ground (
  arith,
  expire-clears s p o xs,
  count_if-update_if-le (pending_for s p) (pending_with_id o.id) expire xs (λ y. ground arith),
)

pending_for-new :
    (i s p : ℕ) (a : ℤ) (c : String) (now : Time)
    → pending_for s p (new_intent i s p a c now) ≡ true
pending_for-new i s p a c now = ground (arith, ==_refl s, ==_refl p)

abbrev pub expired_rows : ℕ → Tables → Tables
expired_rows i t = record t { orders = update_if (pending_with_id i) expire t.orders }

pub expired_rows-IsValid : (i : ℕ) (t : Tables) → IsValid t → IsValid (expired_rows i t)
expired_rows-IsValid i t v = record {
  one_intent = λ s p. omega (
    arith,
    v.one_intent s p,
    count_if-update_if-le (pending_for s p) (pending_with_id i) expire t.orders (λ y. ground arith),
  );
  one_id = λ j. omega (
    arith,
    v.one_id j,
    count_if-update_if-eq (λ o. o.id == j) (pending_with_id i) expire t.orders (λ y. refl),
  );
  ids_given = All-update_if (pending_with_id i) expire t.orders (λ x h. h) v.ids_given;
}

-- no row has the id that is given out next
fresh_id : (n : ℕ) (xs : List Order) → All (λ o. o.id < n) xs → count_if (λ o. o.id == n) xs ≡ 0
fresh_id n [] h = refl
fresh_id n (x ∷ xs) h = ground (arith, fresh_id n xs h.1)

module _ (sub_id product_id : ℕ) (amount : ℤ) (currency : String) (now : Time) where
  abbrev pub intent_row : Tables → Order
  intent_row t = new_intent t.next_order_id sub_id product_id amount currency now

  pub insert_row-IsValid :
      (t : Tables)
      → IsValid t
      → count_if (pending_for sub_id product_id) t.orders ≡ 0
      → IsValid (insert_row t (intent_row t))
  insert_row-IsValid t v free = record {
    one_intent = λ s p. ground (
      arith,
      free,
      v.one_intent s p,
      count_if-append (pending_for s p) t.orders (intent_row t ∷ []),
      same_pair s p,
    );
    one_id = λ j. ground (
      arith,
      v.one_id j,
      fresh_id t.next_order_id t.orders v.ids_given,
      count_if-append (λ o. o.id == j) t.orders (intent_row t ∷ []),
    );
    ids_given =
        All-append _ t.orders (intent_row t ∷ [])
          (All-map (λ o h. omega arith) t.orders v.ids_given) (omega arith, tt);
  }
    where
      same_pair :
          (s p : ℕ)
          → pending_for s p (intent_row t) ≡ true
          → count_if (pending_for s p) t.orders ≡ 0
      same_pair s p h =
          let a : sub_id ≡ s = ground arith in
          let b : product_id ≡ p = ground arith in rw (← a, ← b) free

  pub find-insert_row :
      (t : Tables)
      → count_if (pending_for sub_id product_id) t.orders ≡ 0
      → find (pending_for sub_id product_id) (insert_row t (intent_row t)).orders
        ≡ some (intent_row t)
  find-insert_row t free =
      rw (find-append _ t.orders _ free)
        (ground (arith, pending_for-new t.next_order_id sub_id product_id amount currency now))
