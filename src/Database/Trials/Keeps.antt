-- ===== src/Database/Trials/Keeps.antt =====
-- Changes of the subscriptions that leave those of users alone.
use rs8kvn_bot.Common.{
  ℕ, zero, suc, ◌≤◌, ◌≡◌, refl, arith, Bool, true, false, not, ◌&&◌, String, List, [], ◌∷◌, ◌++◌,
  select, count_if, update_if, any_of, eq_iff, sym, ◌∙◌, Bool-cases, inl, inr, count_if-append,
}
use rs8kvn_bot.Common.Int.{ℤ, pos, negsuc, ltb_ℤ}
use rs8kvn_bot.Common.Text.{text_of, signed64}
use rs8kvn_bot.Database.Models.{Time, Subscription}
use rs8kvn_bot.Database.Trials.{
  make_negative, generate_trial_telegram_id, new_trial, conflicts, has_sub, is_unbound, hash_runes,
}

-- A user's subscriptions that pass a test.
abbrev pub of_users : (Subscription → Bool) → Subscription → Bool
of_users q s = not (is_unbound s) && q s

-- Every subscription of a user stays as it is, and a public id does not come to stand twice.
pub record Keeps (ss ss' : List Subscription) : Type 0 where
  pub users : (q : Subscription → Bool) → count_if (of_users q) ss ≤ count_if (of_users q) ss'
  pub single : (sub : String) → count_if (has_sub sub) ss ≤ 1 → count_if (has_sub sub) ss' ≤ 1

pub Keeps-same : {ss ss' : List Subscription} → ss' ≡ ss → Keeps ss ss'
Keeps-same e = record { users = λ q. rw e (omega arith); single = λ sub h. rw e h }

pub Keeps-trans : {xs ys zs : List Subscription} → Keeps xs ys → Keeps ys zs → Keeps xs zs
Keeps-trans h k = record {
  users = λ q. omega (arith, h.users q, k.users q);
  single = λ sub e. k.single sub (h.single sub e);
}

pub make_negative-unbound : (z : ℤ) → ltb_ℤ (make_negative z) (pos 0) ≡ true
make_negative-unbound (pos zero) = refl
make_negative-unbound (pos (suc n)) = ground arith
make_negative-unbound (negsuc n) = ground arith

-- Trials have negative ids.
pub new_trial-unbound :
    (invite_code subscription_id client_id : String) (expiry now : Time) (plan_id id : ℕ)
    → is_unbound (new_trial invite_code subscription_id client_id expiry now plan_id id) ≡ true
unfolding generate_trial_telegram_id
new_trial-unbound invite_code subscription_id client_id expiry now plan_id id =
    make_negative-unbound (signed64 (hash_runes 0 (text_of subscription_id)))

pub no_conflict :
    (new : Subscription) (sub : String) (ss : List Subscription)
    → any_of (conflicts new) ss ≡ false
    → has_sub sub new ≡ true
    → count_if (has_sub sub) ss ≡ 0
no_conflict new sub [] h k = refl
no_conflict new sub (s ∷ ss) h k = elim (Bool-cases (has_sub sub s)) [
  | inr other ↦ ground (arith, no_conflict new sub ss (ground arith) k)
  | inl same ↦
      let mine = (eq_iff new.subscription_id sub).0 k in
      let its = (eq_iff s.subscription_id sub).0 same in
      let clash = (eq_iff s.subscription_id new.subscription_id).1 (its ∙ sym mine) in
      absurd (ground arith)
]

pub inserted-Keeps :
    (new : Subscription) (ss : List Subscription)
    → is_unbound new ≡ true
    → any_of (conflicts new) ss ≡ false
    → Keeps ss (ss ++ (new ∷ []))
inserted-Keeps new ss u h = record {
  users = λ q. ground (arith, count_if-append (of_users q) ss (new ∷ []));
  single = λ sub e. elim (Bool-cases (has_sub sub new)) [
    | inl same ↦
        ground (arith, count_if-append (has_sub sub) ss (new ∷ []), no_conflict new sub ss h same)
    | inr other ↦ ground (arith, count_if-append (has_sub sub) ss (new ∷ []))
  ];
}

-- An update of unbound rows that changes no public id.
pub updated-users :
    (p q : Subscription → Bool) (f : Subscription → Subscription) (ss : List Subscription)
    → ((s : Subscription) → p s ≡ true → is_unbound s ≡ true)
    → count_if (of_users q) ss ≤ count_if (of_users q) (update_if p f ss)
updated-users p q f [] u = omega arith
updated-users p q f (s ∷ ss) u = ground (arith, u s, updated-users p q f ss u)

pub updated-single :
    (p : Subscription → Bool) (f : Subscription → Subscription) (sub : String)
    (ss : List Subscription)
    → ((s : Subscription) → (f s).subscription_id ≡ s.subscription_id)
    → count_if (has_sub sub) (update_if p f ss) ≡ count_if (has_sub sub) ss
updated-single p f sub [] same = refl
updated-single p f sub (s ∷ ss) same = ground (arith, same s, updated-single p f sub ss same)

pub updated-Keeps :
    (p : Subscription → Bool) (f : Subscription → Subscription) (ss : List Subscription)
    → ((s : Subscription) → p s ≡ true → is_unbound s ≡ true)
    → ((s : Subscription) → (f s).subscription_id ≡ s.subscription_id)
    → Keeps ss (update_if p f ss)
updated-Keeps p f ss u same = record {
  users = λ q. updated-users p q f ss u;
  single = λ sub h. rw (updated-single p f sub ss same) h;
}

-- A deletion of unbound rows.
pub deleted-users :
    (p q : Subscription → Bool) (ss : List Subscription)
    → ((s : Subscription) → p s ≡ true → is_unbound s ≡ true)
    → count_if (of_users q) ss ≤ count_if (of_users q) (select (λ s. not (p s)) ss)
deleted-users p q [] u = omega arith
deleted-users p q (s ∷ ss) u = ground (arith, u s, deleted-users p q ss u)

pub deleted-single :
    (p q : Subscription → Bool) (ss : List Subscription)
    → count_if q (select (λ s. not (p s)) ss) ≤ count_if q ss
deleted-single p q [] = omega arith
deleted-single p q (s ∷ ss) = ground (arith, deleted-single p q ss)

pub deleted-Keeps :
    (p : Subscription → Bool) (ss : List Subscription)
    → ((s : Subscription) → p s ≡ true → is_unbound s ≡ true)
    → Keeps ss (select (λ s. not (p s)) ss)
deleted-Keeps p ss u = record {
  users = λ q. deleted-users p q ss u;
  single = λ sub h. omega (arith, deleted-single p (has_sub sub) ss);
}
