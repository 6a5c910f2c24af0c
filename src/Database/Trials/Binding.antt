-- ===== src/Database/Trials/Binding.antt =====
-- BindTrialSubscription: a trial is bound to one user, once.
use rs8kvn_bot.Common.{
  ℕ, ◌≡◌, refl, ap, ◌∙◌, arith, Option, none, some, String, List, find, update_if, str_eq,
  Option-cases, inl, inr,
}
use rs8kvn_bot.Common.Int.{ℤ}
use rs8kvn_bot.Database.Models.{Subscription}
use rs8kvn_bot.Database.Monad.{Db, Tables, Result, ok, err, advance, ◌>>=◌}
use rs8kvn_bot.Database.Monad.Runs.{transaction-err, transaction-eq-ok, >>=-eq-ok}
use rs8kvn_bot.Database.Subscriptions.{free_plan_name}
use rs8kvn_bot.Database.Trials.{
  trial_plan_name, is_open_trial, is_target, bind_row, bind_found, bind_body, find_referrer,
  bind_trial_subscription,
}
use rs8kvn_bot.Database.Trials.Rows.{rows}
use rs8kvn_bot.Database.Trials.Keeps.{Keeps, Keeps-same, updated-Keeps}

find_referrer_keeps :
    (code : Option String) (db d : Db) (r : ℤ)
    → find_referrer code db ≡ (ok r, d)
    → d.tables ≡ db.tables
find_referrer_keeps none db d r h = ground arith
find_referrer_keeps (some code) db d r h = ground arith

-- What a binding that succeeds did.
pub record Bound (subscription_id : String) (telegram_id : ℤ) (ss ss' : List Subscription)
    : Type 0 where
  pub plan_id : ℕ
  pub sub : Subscription
  pub found : find (is_open_trial subscription_id plan_id) ss ≡ some sub
  pub change : Subscription → Subscription
  pub user : (s : Subscription) → (change s).telegram_id ≡ telegram_id
  pub same_sub : (s : Subscription) → (change s).subscription_id ≡ s.subscription_id
  pub written : ss' ≡ update_if (is_target sub.id plan_id) change ss

module _ (subscription_id : String) (telegram_id : ℤ) (username : String) where
  bind_found-ok :
      (plan_id : ℕ) (sub : Subscription) (r : ℤ) (db db' : Db) (s : Subscription)
      → bind_found plan_id sub telegram_id username r db ≡ (ok s, db')
      → (free : ℕ) × (db'.tables.subscriptions
          ≡ update_if
              (is_target sub.id plan_id)
              (bind_row telegram_id username free r)
              db.tables.subscriptions)
  unfolding bind_found
  bind_found-ok plan_id sub r db db' s h =
      elim (Option-cases (find (λ p. str_eq p.name free_plan_name) db.tables.plans)) [
        | inl missing ↦ absurd (ground arith)
        | inr (free, e) ↦ (free.id, ground arith)
      ]

  found-Bound :
      (plan_id : ℕ) (sub : Subscription) (r : ℤ) (db d db' : Db) (s : Subscription)
      → find (is_open_trial subscription_id plan_id) db.tables.subscriptions ≡ some sub
      → d.tables ≡ db.tables
      → bind_found plan_id sub telegram_id username r d ≡ (ok s, db')
      → Bound subscription_id telegram_id db.tables.subscriptions db'.tables.subscriptions
  found-Bound plan_id sub r db d db' s found same run =
      let (free, written) = bind_found-ok plan_id sub r d db' s run in
      record {
        plan_id = plan_id;
        sub = sub;
        found = found;
        change = bind_row telegram_id username free r;
        user = λ x. refl;
        same_sub = λ x. refl;
        written = cc;
      }

  referred-Bound :
      (plan_id : ℕ) (sub : Subscription) (db start db' : Db) (s : Subscription)
      → find (is_open_trial subscription_id plan_id) db.tables.subscriptions ≡ some sub
      → start.tables ≡ db.tables
      → (find_referrer sub.invite_code >>= bind_found plan_id sub telegram_id username) start
        ≡ (ok s, db')
      → Bound subscription_id telegram_id db.tables.subscriptions db'.tables.subscriptions
  referred-Bound plan_id sub db start db' s found same h =
      let (r, d, referred, run) =
        >>=-eq-ok (find_referrer sub.invite_code) (bind_found plan_id sub telegram_id username)
          start h in
      found-Bound plan_id sub r db d db' s found
        (find_referrer_keeps sub.invite_code start d r referred ∙ same) run

  bind_body-ok :
      (db db' : Db) (s : Subscription)
      → bind_body subscription_id telegram_id username db ≡ (ok s, db')
      → Bound subscription_id telegram_id db.tables.subscriptions db'.tables.subscriptions
  unfolding bind_body
  bind_body-ok db db' s h =
      elim (Option-cases (find (λ p. str_eq p.name trial_plan_name) db.tables.plans)) [
        | inl missing ↦ absurd (ground arith)
        | inr (plan, e) ↦
            elim (Option-cases
              (find (is_open_trial subscription_id plan.id) db.tables.subscriptions)) [
                | inl missing ↦ absurd (ground arith)
                | inr (sub, found) ↦
                    referred-Bound plan.id sub db (advance (advance db)) db' s found refl
                      (ground arith)
              ]
      ]

  pub bind-Bound :
      (db : Db) (s : Subscription)
      → (bind_trial_subscription subscription_id telegram_id username db).0 ≡ ok s
      → Bound subscription_id telegram_id db.tables.subscriptions
          (rows (bind_trial_subscription subscription_id telegram_id username) db)
  unfolding bind_trial_subscription
  bind-Bound db s h =
      let body = bind_body subscription_id telegram_id username in
      let (db', run, end) = transaction-eq-ok body db {a = s} h in
      let b = bind_body-ok db db' s run in
      record {
        plan_id = b.plan_id;
        sub = b.sub;
        found = b.found;
        change = b.change;
        user = b.user;
        same_sub = b.same_sub;
        written = ap (λ (d : Db). d.tables.subscriptions) end ∙ b.written;
      }

  pub bind-Keeps :
      (db : Db)
      → Keeps db.tables.subscriptions
          (rows (bind_trial_subscription subscription_id telegram_id username) db)
  unfolding bind_trial_subscription
  bind-Keeps db = by_result (bind_trial_subscription subscription_id telegram_id username db).0 refl
    where
      by_result :
          (r : Result Subscription)
          → (bind_trial_subscription subscription_id telegram_id username db).0 ≡ r
          → Keeps db.tables.subscriptions
              (rows (bind_trial_subscription subscription_id telegram_id username) db)
      by_result (err e) h = Keeps-same (
          ap (λ (t : Tables). t.subscriptions)
            (transaction-err (bind_body subscription_id telegram_id username) db h))
      by_result (ok s) h =
          let b = bind-Bound db s h in
          rw b.written (
            updated-Keeps (is_target b.sub.id b.plan_id) b.change db.tables.subscriptions
              (λ x k. ground arith) b.same_sub)
