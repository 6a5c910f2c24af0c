-- ===== src/Database/Trials/Once.antt =====
-- Trials in any order of operations: a bound trial stays with its user.
use rs8kvn_bot.Common.{
  ℕ, ◌+◌, ◌≤◌, ◌≡◌, ◌≢◌, refl, arith, Bool, true, false, ◌&&◌, some, String, List, [], ◌∷◌, find,
  find-pass, count_if, update_if, count_if-found, ap,
}
use rs8kvn_bot.Common.Int.{ℤ, pos, ltb_ℤ}
use rs8kvn_bot.Database.Models.{Time, Subscription}
use rs8kvn_bot.Database.Monad.{Db, ok}
use rs8kvn_bot.Database.Trials.{
  has_sub, is_unbound, is_open_trial, is_target, bind_trial_subscription, create_trial_subscription,
}
use rs8kvn_bot.Database.Trials.Cleanup.{
  claim_expired_trials, delete_claimed_trial, cleanup_expired_trials,
}
use rs8kvn_bot.Database.Trials.Rows.{rows, create-Keeps, claim-Keeps, delete-Keeps, cleanup-Keeps}
use rs8kvn_bot.Database.Trials.Keeps.{of_users, Keeps, Keeps-same}
use rs8kvn_bot.Database.Trials.Binding.{Bound, bind-Bound, bind-Keeps}

-- The operations on trials that write subscriptions.
pub data TrialCall : Type 0 where
  create : String → String → String → Time → Time → TrialCall
  bind : String → ℤ → String → TrialCall
  claim cleanup : ℕ → Time → TrialCall
  delete : ℕ → TrialCall

abbrev pub run : TrialCall → Db → List Subscription
run (create invite_code subscription_id client_id expiry now) =
    rows (create_trial_subscription invite_code subscription_id client_id expiry now)
run (bind subscription_id telegram_id username) =
    rows (bind_trial_subscription subscription_id telegram_id username)
run (claim hours now) = rows (claim_expired_trials hours now)
run (cleanup hours now) = rows (cleanup_expired_trials hours now)
run (delete id) = rows (delete_claimed_trial id)

run-Keeps : (c : TrialCall) (db : Db) → Keeps db.tables.subscriptions (run c db)
run-Keeps (create invite_code subscription_id client_id expiry now) =
    create-Keeps invite_code subscription_id client_id expiry now
run-Keeps (bind subscription_id telegram_id username) =
    bind-Keeps subscription_id telegram_id username
run-Keeps (claim hours now) = claim-Keeps hours now
run-Keeps (cleanup hours now) = cleanup-Keeps hours now
run-Keeps (delete id) = delete-Keeps id

-- What the subscriptions become, when each operation meets a database with these subscriptions,
-- other tables as they may be then, and statements that fail as they may.
pub data Reach (ss : List Subscription) : List Subscription → Type 0 where
  here : Reach ss ss
  next :
      {ts : List Subscription} (c : TrialCall) (db : Db)
      → Reach ss ts
      → db.tables.subscriptions ≡ ts
      → Reach ss (run c db)

Reach-Keeps : {ss ts : List Subscription} → Reach ss ts → Keeps ss ts
Reach-Keeps here = Keeps-same refl
Reach-Keeps (next c db r e) =
    let before = Reach-Keeps r in
    let step = run-Keeps c db in
    record {
      users = λ q. omega (arith, before.users q, step.users q, ap (count_if (of_users q)) e);
      single = λ sub h. step.single sub (rw e (before.single sub h));
    }

count_updated :
    (p target q : Subscription → Bool) (f : Subscription → Subscription) (ss : List Subscription)
    (s : Subscription)
    → find p ss ≡ some s
    → target s ≡ true
    → q (f s) ≡ true
    → count_if q (update_if target f ss) ≢ 0
count_updated p target q f [] s found t k = cc
count_updated p target q f (x ∷ ss) s found t k = ground (arith, count_updated p target q f ss s)

users_and_trials :
    (q : Subscription → Bool) (ss : List Subscription)
    → count_if (of_users q) ss + count_if (λ s. is_unbound s && q s) ss ≡ count_if q ss
users_and_trials q [] = refl
users_and_trials q (s ∷ ss) = ground (arith, users_and_trials q ss)

module _ (subscription_id : String) where
  -- A bound trial is a user's.
  Bound-users :
      (telegram_id : ℤ) (ss ss' : List Subscription)
      → ltb_ℤ telegram_id (pos 0) ≡ false
      → Bound subscription_id telegram_id ss ss'
      → count_if (of_users (has_sub subscription_id)) ss' ≢ 0
  Bound-users telegram_id ss ss' positive b =
      let open_trial = find-pass (is_open_trial subscription_id b.plan_id) ss b.sub b.found in
      rw b.written (
        count_updated (is_open_trial subscription_id b.plan_id) (is_target b.sub.id b.plan_id)
          (of_users (has_sub subscription_id)) b.change ss b.sub b.found (ground arith)
          (ground (arith, b.user b.sub, b.same_sub b.sub)))

  taken-refuses :
      (telegram_id : ℤ) (ss ss' : List Subscription)
      → count_if (has_sub subscription_id) ss ≤ 1
      → count_if (of_users (has_sub subscription_id)) ss ≢ 0
      → Bound subscription_id telegram_id ss ss'
      → ⊥
  taken-refuses telegram_id ss ss' single user b =
      let p = is_open_trial subscription_id b.plan_id in
      let q = has_sub subscription_id in
      let open_trial = find-pass p ss b.sub b.found in
      let trial = count_if-found p (λ s. is_unbound s && q s) ss b.sub b.found (ground arith) in
      omega (arith, users_and_trials q ss)

  -- After a binding of a trial to a user that succeeded, where the public id stood at most once,
  -- and any operations on trials since, whichever statements failed, no binding of the same trial
  -- succeeds, to this user or to another; and every subscription of a user that the binding left
  -- is still there as it was, each as often.
  pub bind_trial_once :
      (telegram_id : ℤ) (username : String) (db : Db) (s : Subscription)
      → ltb_ℤ telegram_id (pos 0) ≡ false
      → count_if (has_sub subscription_id) db.tables.subscriptions ≤ 1
      → (bind_trial_subscription subscription_id telegram_id username db).0 ≡ ok s
      → {ts : List Subscription}
      → Reach (rows (bind_trial_subscription subscription_id telegram_id username) db) ts
      → (db' : Db) → db'.tables.subscriptions ≡ ts
      → ((telegram_id' : ℤ) (username' : String) (s' : Subscription)
          → (bind_trial_subscription subscription_id telegram_id' username' db').0 ≢ ok s')
        × ((q : Subscription → Bool)
            → count_if
                (of_users q)
                (rows (bind_trial_subscription subscription_id telegram_id username) db)
              ≤ count_if (of_users q) ts)
  bind_trial_once telegram_id username db s positive single h {ts} r db' e =
      let ss = rows (bind_trial_subscription subscription_id telegram_id username) db in
      let q = has_sub subscription_id in
      let user =
        Bound-users telegram_id db.tables.subscriptions ss positive
          (bind-Bound subscription_id telegram_id username db s h) in
      let kept = Reach-Keeps r in
      let single' =
        kept.single subscription_id
          ((bind-Keeps subscription_id telegram_id username db).single subscription_id single) in
      let user' : count_if (of_users q) ts ≢ 0 = λ z. user (omega (arith, kept.users q, z)) in
      (
        λ telegram_id' username' s' k.
            taken-refuses telegram_id' db'.tables.subscriptions
              (rows (bind_trial_subscription subscription_id telegram_id' username') db')
              (rw e single') (rw e user')
              (bind-Bound subscription_id telegram_id' username' db' s' k),
        kept.users,
      )
