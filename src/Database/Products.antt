-- ===== src/Database/Products.antt =====
-- internal/database/products.go: the lookup of a product, and its guarded update.
pub mod Laws
use rs8kvn_bot.Common.{
  ℕ, Bool, true, false, not, ◌&&◌, ◌||◌, Option, none, some, ltb, ◌==◌, if◌then◌else◌, find,
  update_if, count_if, str_eq,
}
use rs8kvn_bot.Common.Int.{eqb_ℤ}
use rs8kvn_bot.Database.Models.{Product, Order}
use rs8kvn_bot.Database.Monad.{
  M, Error, ok, pure, raise, or_raise, ◌>>=◌, ◌>>◌, statement, query, transaction,
}

-- GetProductByID
unfoldable pub get_product_by_id : ℕ → M Product
get_product_by_id id =
    query (λ t. find (λ p. p.id == id) t.products) >>= λ p. or_raise p Error.product_not_found

abbrev pub has_id : ℕ → Product → Bool
has_id id p = p.id == id

-- UPDATE products SET ... WHERE id = ?
abbrev pub update_products : ℕ → (Product → Product) → M ℕ
update_products id f = statement (λ t. (
  ok (count_if (has_id id) t.products),
  record t { products = update_if (has_id id) f t.products },
))

-- The fields that an order refers to.
abbrev pub same_terms : Product → Product → Bool
same_terms a b =
    str_eq a.name b.name
    && (a.plan_id == b.plan_id
        && (a.duration_days == b.duration_days
            && (eqb_ℤ a.price_cents b.price_cents && str_eq a.currency b.currency)))

abbrev pub set_active : Bool → Product → Product
set_active b p = record p { is_active = b }

abbrev pub set_columns : Product → Product → Product
set_columns new p = record p {
  name = new.name;
  plan_id = new.plan_id;
  duration_days = new.duration_days;
  price_cents = new.price_cents;
  currency = new.currency;
  is_active = new.is_active;
}

-- The transaction's body.
unfoldable pub update_product_body : Product → M (Unit {0})
update_product_body product = do
  current ← get_product_by_id product.id
  _ ← update_products product.id (set_active current.is_active)
  orders ← query (λ t. count_if (λ o. o.product_id == product.id) t.orders)
  if ltb 0 orders && not (same_terms current product) then raise Error.product_immutable else (do
    n ← update_products product.id (set_columns product)
    if n == 0 then raise Error.product_not_found else pure tt)

-- UpdateProductGuarded, for a product that is not nil
unfoldable pub update_product_guarded : Product → M (Unit {0})
update_product_guarded product =
    if product.id == 0
    then raise Error.product_not_found
    else transaction (update_product_body product)
