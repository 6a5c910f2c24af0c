-- ===== src/Database/Orders/Lifecycle/Evolves.antt =====
-- How an order may change, and how the orders table may.
use rs8kvn_bot.Common.{
  Bool, true, false, List, [], ◌∷◌, ◌++◌, ◌≡◌, refl, ◌∙◌, arith, some, ◌==◌, find, update_if,
  if◌then◌else◌, ℕ, Bool-cases, inl, inr,
}
use mathlib.Core.Path.{subst}
use rs8kvn_bot.Database.Models.{Order, OrderStatus}

-- pending may become anything, expired may still be paid, paid may only be canceled, and canceled
-- is final. (Transitive: a pending order that was paid and charged back is canceled.)
abbrev pub may_become : OrderStatus → OrderStatus → Bool
may_become OrderStatus.pending b = true
may_become OrderStatus.expired OrderStatus.pending = false
may_become OrderStatus.expired _ = true
may_become OrderStatus.paid OrderStatus.paid = true
may_become OrderStatus.paid OrderStatus.canceled = true
may_become OrderStatus.paid _ = false
may_become OrderStatus.canceled OrderStatus.canceled = true
may_become OrderStatus.canceled _ = false

-- The purchase that an order records never changes; its status moves forward.
pub record Follows (o o' : Order) : Type 0 where
  pub same_id : o'.id ≡ o.id
  pub same_subscription : o'.subscription_id ≡ o.subscription_id
  pub same_product : o'.product_id ≡ o.product_id
  pub same_amount : o'.amount_cents ≡ o.amount_cents
  pub same_currency : o'.currency ≡ o.currency
  pub forward : may_become o.status o'.status ≡ true

pub Follows-refl : (o : Order) → Follows o o
Follows-refl o = ground arith

pub Follows-trans : (a b c : Order) → Follows a b → Follows b c → Follows a c
Follows-trans a b c h k = record {
  same_id = k.same_id ∙ h.same_id;
  same_subscription = k.same_subscription ∙ h.same_subscription;
  same_product = k.same_product ∙ h.same_product;
  same_amount = k.same_amount ∙ h.same_amount;
  same_currency = k.same_currency ∙ h.same_currency;
  forward = ground arith;
}

-- Row by row, with new rows at the end.
abbrev pub Evolves : List Order → List Order → Type 0
Evolves [] ys = Unit
Evolves (x ∷ xs) [] = ⊥
Evolves (x ∷ xs) (y ∷ ys) = Follows x y × Evolves xs ys

pub Evolves-refl : (xs : List Order) → Evolves xs xs
Evolves-refl [] = tt
Evolves-refl (x ∷ xs) = (Follows-refl x, Evolves-refl xs)

pub Evolves-trans : (xs ys zs : List Order) → Evolves xs ys → Evolves ys zs → Evolves xs zs
Evolves-trans [] ys zs h k = tt
Evolves-trans (x ∷ xs) [] zs h k = absurd h
Evolves-trans (x ∷ xs) (y ∷ ys) [] h k = absurd k
Evolves-trans (x ∷ xs) (y ∷ ys) (z ∷ zs) h k =
    (Follows-trans x y z h.0 k.0, Evolves-trans xs ys zs h.1 k.1)

pub Evolves-append : (xs ys : List Order) → Evolves xs (xs ++ ys)
Evolves-append [] ys = tt
Evolves-append (x ∷ xs) ys = (Follows-refl x, Evolves-append xs ys)

-- An UPDATE whose rows follow keeps the table evolving.
pub Evolves-update_if :
    (p : Order → Bool) (f : Order → Order) (xs : List Order)
    → ((o : Order) → p o ≡ true → Follows o (f o))
    → Evolves xs (update_if p f xs)
Evolves-update_if p f [] h = tt
Evolves-update_if p f (x ∷ xs) h = (keep (p x) refl, Evolves-update_if p f xs h)
  where
    keep : (b : Bool) → p x ≡ b → Follows x (if b then f x else x)
    keep true e = h x e
    keep false e = Follows-refl x

-- A row found by its id is found again, and follows.
pub Evolves-find :
    (i : ℕ) (xs ys : List Order) (o : Order)
    → Evolves xs ys
    → find (λ r. r.id == i) xs ≡ some o
    → (o' : Order) × (find (λ r. r.id == i) ys ≡ some o') × Follows o o'
Evolves-find i [] ys o h e = cc
Evolves-find i (x ∷ xs) [] o h e = absurd h
Evolves-find i (x ∷ xs) (y ∷ ys) o h e = elim (Bool-cases (x.id == i)) [
  | inl here ↦
      let same : x ≡ o = ground arith in
      (y, ground (arith, h.0.same_id), subst (λ z. Follows z y) same h.0)
  | inr later ↦
      let (o', e', f) = Evolves-find i xs ys o h.1 (ground arith) in
      (o', ground (arith, h.0.same_id), f)
]
