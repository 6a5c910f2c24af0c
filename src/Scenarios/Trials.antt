-- ===== src/Scenarios/Trials.antt =====
-- An anonymous trial that a user binds while the clean-up of old trials runs.
use rs8kvn_bot.Common.{ℕ, true, [], ◌∷◌, ◌≢◌, refl, arith, ◌*◌, ◌≤◌, String, Bool, count_if}
use rs8kvn_bot.Common.Int.{ℤ, pos}
use rs8kvn_bot.Common.Text.{text_of}
use rs8kvn_bot.Database.Models.{Subscription, Plan}
use rs8kvn_bot.Database.Monad.{Db, ok, transaction}
use rs8kvn_bot.Database.Trials.{
  create_trial_subscription, resolve_trial_plan_id, generate_trial_telegram_id, hash_runes,
  bind_trial_subscription, bind_body, bind_found, bound_trial, hour, new_trial,
}
use rs8kvn_bot.Database.Trials.Cleanup.{cleanup_expired_trials}
use rs8kvn_bot.Database.Trials.Keeps.{of_users}
use rs8kvn_bot.Database.Trials.Once.{here, next, cleanup, bind_trial_once}
use rs8kvn_bot.Scenarios.{shop}

abbrev plan : ℕ → String → Plan
plan id name = record {
  id = id;
  name = name;
  is_active = true;
  devices_limit = pos 1;
  traffic_limit = pos 0;
}

abbrev office : Db
office = record shop {
  tables = record shop.tables { plans = plan 8 "trial" ∷ (plan 9 "free" ∷ []) };
}

-- the trial is created
abbrev tried : Db
tried = (create_trial_subscription "" "t8" "c8" hour 0 office).1

-- and bound to user 43, before the clean-up
abbrev used : Db
used = (bind_trial_subscription "t8" (pos 43) "bob" tried).1

abbrev cleaned : Db
cleaned = (cleanup_expired_trials 1 (5 * hour) used).1

bind_trial_once_example :
    ((telegram_id' : ℤ) (username' : String) (s' : Subscription)
      → (bind_trial_subscription "t8" telegram_id' username' cleaned).0 ≢ ok s')
    × ((q : Subscription → Bool)
        → count_if (of_users q) used.tables.subscriptions
          ≤ count_if (of_users q) cleaned.tables.subscriptions)
unfolding create_trial_subscription resolve_trial_plan_id generate_trial_telegram_id hash_runes
    bind_trial_subscription bind_body bind_found transaction text_of
bind_trial_once_example =
    bind_trial_once "t8" (pos 43) "bob" tried
      (bound_trial (pos 43) "bob" 9 (pos 0) (new_trial "" "t8" "c8" hour 0 8 8)) refl (omega arith)
      refl (next (cleanup 1 (5 * hour)) used here refl) cleaned refl
