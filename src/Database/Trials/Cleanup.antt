-- ===== src/Database/Trials/Cleanup.antt =====
-- The end of trials that nobody bound, and the requests that limit new ones.
use rs8kvn_bot.Common.{
  ℕ, ◌+◌, ◌*◌, Bool, true, false, not, ◌&&◌, ◌||◌, String, List, [], ◌∷◌, ◌++◌, ltb, ◌==◌, select,
  count_if, update_if, str_eq, any_of, if◌then◌else◌,
}
use rs8kvn_bot.Database.Models.{
  Time, Subscription, SubscriptionStatus, AuditLog, is_active_subscription,
}
use rs8kvn_bot.Database.Monad.{
  M, Error, Tables, ok, err, pure, raise, or_raise, ◌>>=◌, ◌>>◌, statement, query, execute,
  best_effort, insert_audit_log,
}
use rs8kvn_bot.Database.Trials.{hour, trial_plan_name, plan_named, is_unbound}

abbrev pub second : Time
second = 1000000000

abbrev pub is_expired_subscription : SubscriptionStatus → Bool
is_expired_subscription SubscriptionStatus.expired = true
is_expired_subscription _ = false

abbrev pub is_old_trial : ℕ → ℕ → Time → Subscription → Bool
is_old_trial plan_id hours now s =
    s.plan_id == plan_id && (is_unbound s && ltb (s.created_at + hours * hour) now)

abbrev pub may_expire : ℕ → ℕ → Time → Subscription → Bool
may_expire plan_id hours now s =
    is_old_trial plan_id hours now s
    && (is_active_subscription s.status || is_expired_subscription s.status)

abbrev pub expire_row : Subscription → Subscription
expire_row s = record s { status = SubscriptionStatus.expired }

-- DELETE FROM trial_requests WHERE created_at < now - 1h + 1s
abbrev pub forget_requests : Time → M (Unit {0})
forget_requests now = execute (λ t. record t {
  trial_requests = select (λ r. not (ltb (r.created_at + hour) (now + second))) t.trial_requests;
})

-- ClaimExpiredTrials. The rows are returned whole; the source returns some of their columns.
unfoldable pub claim_expired_trials : ℕ → Time → M (List Subscription)
claim_expired_trials hours now = do
  trial ← plan_named trial_plan_name
  plan ← or_raise trial Error.record_not_found
  subs ← statement (λ t. (
    ok (
        select (may_expire plan.id hours now)
          (update_if (may_expire plan.id hours now) expire_row t.subscriptions)),
    record t {
      subscriptions = update_if (may_expire plan.id hours now) expire_row t.subscriptions;
    },
  ))
  forget_requests now >> pure subs

abbrev pub is_claimed : ℕ → ℕ → Subscription → Bool
is_claimed id plan_id s =
    s.id == id && (s.plan_id == plan_id && (is_unbound s && is_expired_subscription s.status))

-- DELETE FROM subscriptions WHERE ..., with the deleted rows
-- The foreign keys of a subscription: a row of subscription_nodes refuses its deletion (migration
-- 032), and its orders go with it (ON DELETE CASCADE, migration 034).
abbrev pub has_bindings : (Subscription → Bool) → Tables → Bool
has_bindings p t =
    any_of (λ s. p s && any_of (λ r. r.subscription_id == s.id) t.subscription_nodes)
      t.subscriptions

abbrev pub without : (Subscription → Bool) → Tables → Tables
without p t = record t {
  subscriptions = select (λ s. not (p s)) t.subscriptions;
  orders =
      select (λ o. not (any_of (λ s. p s && s.id == o.subscription_id) t.subscriptions)) t.orders;
}

abbrev pub delete_subscriptions : (Subscription → Bool) → M (List Subscription)
delete_subscriptions p = statement (λ t.
    if has_bindings p t
    then (err Error.constraint_failed, t)
    else (ok (select p t.subscriptions), without p t))

abbrev pub or_not_found : List Subscription → M (Unit {0})
or_not_found [] = raise Error.subscription_not_found
or_not_found (s ∷ ss) = pure tt

-- DeleteClaimedTrial
unfoldable pub delete_claimed_trial : ℕ → M (Unit {0})
delete_claimed_trial id = do
  trial ← plan_named trial_plan_name
  plan ← or_raise trial Error.record_not_found
  deleted ← delete_subscriptions (is_claimed id plan.id)
  or_not_found deleted

-- CountTrialRequestsByIPLastHour
unfoldable pub count_trial_requests_by_ip_last_hour : String → Time → M ℕ
count_trial_requests_by_ip_last_hour ip now =
    query (λ t. count_if (λ r. str_eq r.ip ip && ltb now (r.created_at + hour)) t.trial_requests)

-- CreateTrialRequest
unfoldable pub create_trial_request : String → Time → M (Unit {0})
create_trial_request ip now = execute (λ t. record t {
  trial_requests = t.trial_requests ++ (record { ip = ip; created_at = now } ∷ []);
})

abbrev pub audit_deletions : List Subscription → M (Unit {0})
audit_deletions [] = pure tt
audit_deletions (s ∷ ss) =
    best_effort (insert_audit_log (AuditLog.trial_deleted s)) >> audit_deletions ss

-- CleanupExpiredTrials, which also returns whole rows here
unfoldable pub cleanup_expired_trials : ℕ → Time → M (List Subscription)
cleanup_expired_trials hours now = do
  trial ← plan_named trial_plan_name
  plan ← or_raise trial Error.record_not_found
  subs ← delete_subscriptions (is_old_trial plan.id hours now)
  audit_deletions subs >> (forget_requests now >> pure subs)
