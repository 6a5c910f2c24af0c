-- ===== src/Common/Lists.antt =====
-- Lists measured by native numbers, and the rows of a table selected by a Boolean condition.
use Prim.Native.Nat.{ℕ, zero, suc, ◌+◌, ◌≤◌}
use mathlib.Core.Path.{◌≡◌, refl, ◌∙◌}
use mathlib.Core.Logic.{◌≢◌, ∥∥₁_elim}
use mathlib.Core.Bool.{Bool, true, false, not, ◌||◌, ◌&&◌, Bool-set}
use mathlib.Core.Option.{Option, none, some}
use mathlib.Core.List.{List, [], ◌∷◌, ◌++◌, Perm, Permᴰ}
use native.Mathlib.Omega.{arith}
use rs8kvn_bot.Common.Tests.{if◌then◌else◌}

or_swap : (a b c : Bool) → b || (a || c) ≡ a || (b || c)
or_swap true b c = ground arith
or_swap false b c = refl

and_swap : (a b c : Bool) → b && (a && c) ≡ a && (b && c)
and_swap true b c = refl
and_swap false b c = ground arith

module _ {ℓ} {A : Type ℓ} where
  abbrev pub length : List A → ℕ
  length [] = 0
  length (x ∷ xs) = suc (length xs)

  -- the first element that passes
  abbrev pub find : (A → Bool) → List A → Option A
  find p [] = none
  find p (x ∷ xs) = if p x then some x else find p xs

  -- the elements that pass, in order
  abbrev pub select : (A → Bool) → List A → List A
  select p [] = []
  select p (x ∷ xs) = let rest = select p xs in if p x then x ∷ rest else rest

  -- how many pass
  abbrev pub count_if : (A → Bool) → List A → ℕ
  count_if p [] = 0
  count_if p (x ∷ xs) = let rest = count_if p xs in if p x then suc rest else rest

  -- rewrite those that pass
  abbrev pub update_if : (A → Bool) → (A → A) → List A → List A
  update_if p f [] = []
  update_if p f (x ∷ xs) = (if p x then f x else x) ∷ update_if p f xs

  abbrev pub any_of : (A → Bool) → List A → Bool
  any_of p [] = false
  any_of p (x ∷ xs) = p x || any_of p xs

  -- Every element, in order.
  abbrev pub All {κ} : (A → Type κ) → List A → Type κ
  All P [] = Unit
  All P (x ∷ xs) = P x × All P xs

  abbrev pub all_of : (A → Bool) → List A → Bool
  all_of p [] = true
  all_of p (x ∷ xs) = p x && all_of p xs

  pub all_of-imp :
      (p q : A → Bool) (xs : List A)
      → ((x : A) → p x ≡ true → q x ≡ true)
      → all_of p xs ≡ true
      → all_of q xs ≡ true
  all_of-imp p q [] h k = refl
  all_of-imp p q (x ∷ xs) h k = ground (arith, h x, all_of-imp p q xs h)

  pub all_of-append :
      (p : A → Bool) (xs ys : List A)
      → all_of p xs ≡ true
      → all_of p ys ≡ true
      → all_of p (xs ++ ys) ≡ true
  all_of-append p [] ys h k = k
  all_of-append p (x ∷ xs) ys h k = ground (arith, all_of-append p xs ys)

  pub all_of-behind :
      (p : A → Bool) (xs ys : List A) → all_of p (xs ++ ys) ≡ true → all_of p ys ≡ true
  all_of-behind p [] ys h = h
  all_of-behind p (x ∷ xs) ys h = all_of-behind p xs ys (ground arith)

  pub any_of-all_of :
      (p : A → Bool) (xs : List A) → all_of (λ x. not (p x)) xs ≡ true → any_of p xs ≡ false
  any_of-all_of p [] h = refl
  any_of-all_of p (x ∷ xs) h = ground (arith, any_of-all_of p xs)

  pub any_of-append :
      (p : A → Bool) (xs ys : List A) → any_of p xs ≡ true → any_of p (xs ++ ys) ≡ true
  any_of-append p [] ys h = cc
  any_of-append p (x ∷ xs) ys h = ground (arith, any_of-append p xs ys)

  pub all_of-select :
      (p q : A → Bool) (xs : List A) → all_of p xs ≡ true → all_of p (select q xs) ≡ true
  all_of-select p q [] h = refl
  all_of-select p q (x ∷ xs) h = ground (arith, all_of-select p q xs)

  pub all_of-find :
      (p q : A → Bool) (xs : List A) (a : A) → all_of p xs ≡ true → find q xs ≡ some a → p a ≡ true
  all_of-find p q [] a h k = cc
  all_of-find p q (x ∷ xs) a h k = ground (arith, all_of-find p q xs a)

  any_of-Permᴰ : (p : A → Bool) {xs ys : List A} → Permᴰ xs ys → any_of p xs ≡ any_of p ys
  any_of-Permᴰ p Permᴰ.nil = refl
  any_of-Permᴰ p (Permᴰ.cons e d) = rw (e, any_of-Permᴰ p d) refl
  any_of-Permᴰ p (Permᴰ.swap {a' = a} {b' = b} {l = l} e f) =
      rw (e, f) (or_swap (p a) (p b) (any_of p l))
  any_of-Permᴰ p (Permᴰ.trans d e) = any_of-Permᴰ p d ∙ any_of-Permᴰ p e

  all_of-Permᴰ : (p : A → Bool) {xs ys : List A} → Permᴰ xs ys → all_of p xs ≡ all_of p ys
  all_of-Permᴰ p Permᴰ.nil = refl
  all_of-Permᴰ p (Permᴰ.cons e d) = rw (e, all_of-Permᴰ p d) refl
  all_of-Permᴰ p (Permᴰ.swap {a' = a} {b' = b} {l = l} e f) =
      rw (e, f) (and_swap (p a) (p b) (all_of p l))
  all_of-Permᴰ p (Permᴰ.trans d e) = all_of-Permᴰ p d ∙ all_of-Permᴰ p e

  -- A test of the elements forgets their order.
  pub any_of-Perm : (p : A → Bool) {xs ys : List A} → Perm xs ys → any_of p xs ≡ any_of p ys
  any_of-Perm p d = ∥∥₁_elim d (Bool-set _ _) (any_of-Permᴰ p)

  pub all_of-Perm : (p : A → Bool) {xs ys : List A} → Perm xs ys → all_of p xs ≡ all_of p ys
  all_of-Perm p d = ∥∥₁_elim d (Bool-set _ _) (all_of-Permᴰ p)

  pub length-append : (xs ys : List A) → length (xs ++ ys) ≡ length xs + length ys
  length-append [] ys = omega arith
  length-append (x ∷ xs) ys = omega (arith, length-append xs ys)

  -- an update that nothing passes changes nothing
  pub update_if-none :
      (p : A → Bool) (f : A → A) (xs : List A) → count_if p xs ≡ 0 → update_if p f xs ≡ xs
  update_if-none p f [] h = refl
  update_if-none p f (x ∷ xs) h = ground (arith, update_if-none p f xs)

  pub find-pass : (p : A → Bool) (xs : List A) (a : A) → find p xs ≡ some a → p a ≡ true
  find-pass p [] a h = cc
  find-pass p (x ∷ xs) a h = ground (arith, find-pass p xs a)

  pub All-map {κ κ'} :
      {P : A → Type κ} {Q : A → Type κ'} (f : (x : A) → P x → Q x) (xs : List A)
      → All P xs
      → All Q xs
  All-map f [] h = tt
  All-map f (x ∷ xs) h = (f x h.0, All-map f xs h.1)

  -- a found element that passes a second test is counted by it
  pub count_if-found :
      (p q : A → Bool) (xs : List A) (a : A) → find p xs ≡ some a → q a ≡ true → count_if q xs ≢ 0
  count_if-found p q [] a h k = cc
  count_if-found p q (x ∷ xs) a h k = ground (arith, count_if-found p q xs a)

  pub find-none-count_if : (p : A → Bool) (xs : List A) → find p xs ≡ none → count_if p xs ≡ 0
  find-none-count_if p [] h = refl
  find-none-count_if p (x ∷ xs) h = ground (arith, find-none-count_if p xs)

  abbrev pub take : ℕ → List A → List A
  take zero xs = []
  take (suc n) [] = []
  take (suc n) (x ∷ xs) = x ∷ take n xs

  pub count_if-append :
      (p : A → Bool) (xs ys : List A) → count_if p (xs ++ ys) ≡ count_if p xs + count_if p ys
  count_if-append p [] ys = omega arith
  count_if-append p (x ∷ xs) ys = ground (arith, count_if-append p xs ys)

  pub any_of-count_if : (p : A → Bool) (xs : List A) → any_of p xs ≡ false → count_if p xs ≡ 0
  any_of-count_if p [] h = refl
  any_of-count_if p (x ∷ xs) h = ground (arith, any_of-count_if p xs)

  pub count_if-any_of : (p : A → Bool) (xs : List A) → count_if p xs ≡ 0 → any_of p xs ≡ false
  count_if-any_of p [] h = refl
  count_if-any_of p (x ∷ xs) h = ground (arith, count_if-any_of p xs)

  pub find-append :
      (p : A → Bool) (xs ys : List A) → count_if p xs ≡ 0 → find p (xs ++ ys) ≡ find p ys
  find-append p [] ys h = refl
  find-append p (x ∷ xs) ys h = ground (arith, find-append p xs ys)

  -- An update that makes no row pass a test lets no more rows pass it.
  pub count_if-update_if-le :
      (q p : A → Bool) (f : A → A) (xs : List A)
      → ((x : A) → q (f x) ≡ true → q x ≡ true)
      → count_if q (update_if p f xs) ≤ count_if q xs
  count_if-update_if-le q p f [] h = omega arith
  count_if-update_if-le q p f (x ∷ xs) h = ground (arith, h x, count_if-update_if-le q p f xs h)

  -- An update that changes no test changes no count.
  pub count_if-update_if-eq :
      (q p : A → Bool) (f : A → A) (xs : List A)
      → ((x : A) → q (f x) ≡ q x)
      → count_if q (update_if p f xs) ≡ count_if q xs
  count_if-update_if-eq q p f [] h = refl
  count_if-update_if-eq q p f (x ∷ xs) h = ground (arith, h x, count_if-update_if-eq q p f xs h)

  pub All-update_if {κ} :
      {P : A → Type κ} (p : A → Bool) (f : A → A) (xs : List A)
      → ((x : A) → P x → P (f x))
      → All P xs
      → All P (update_if p f xs)
  All-update_if p f [] keep h = tt
  All-update_if {P} p f (x ∷ xs) keep h = (keep_head (p x), All-update_if p f xs keep h.1)
    where
      keep_head : (b : Bool) → P (if b then f x else x)
      keep_head true = keep x h.0
      keep_head false = h.0

  pub All-append {κ} : (P : A → Type κ) (xs ys : List A) → All P xs → All P ys → All P (xs ++ ys)
  All-append P [] ys h k = k
  All-append P (x ∷ xs) ys h k = (h.0, All-append P xs ys h.1 k)
