-- ===== src/Database/Trials.antt =====
-- internal/database/trials.go: anonymous trial subscriptions, which have a negative Telegram id
-- until a user binds them, and their expiry. `now` is the clock.
pub mod Cleanup
pub mod Keeps
pub mod Rows
pub mod Binding
pub mod Once
use rs8kvn_bot.Common.{
  ℕ, zero, suc, ◌+◌, ◌*◌, ◌%◌, Bool, true, false, not, ◌&&◌, ◌||◌, Option, none, some, String, List,
  [], ◌∷◌, ◌++◌, ltb, ◌==◌, if◌then◌else◌, find, select, count_if, update_if, any_of, str_eq,
}
use rs8kvn_bot.Common.Int.{ℤ, pos, negsuc, eqb_ℤ, ltb_ℤ}
use rs8kvn_bot.Common.Text.{Text, text_of, signed64}
use rs8kvn_bot.Database.Models.{
  Time, minute, Subscription, SubscriptionStatus, Plan, Invite, TrialRequest, AuditLog,
  is_active_subscription,
}
use rs8kvn_bot.Database.Monad.{
  Tables, M, Error, Result, ok, err, pure, raise, or_raise, ◌>>=◌, ◌>>◌, statement, query, execute,
  transaction, best_effort, insert_audit_log,
}
use rs8kvn_bot.Database.Subscriptions.{free_plan_name}

abbrev pub hour : Time
hour = 60 * minute

abbrev pub trial_plan_name : String
trial_plan_name = "trial"

-- the loop `hash = hash*31 + int64(c)`, as the 64 bits of the int64 value
unfoldable pub hash_runes : ℕ → Text → ℕ
hash_runes hash [] = hash
hash_runes hash (c ∷ s) = hash_runes ((hash * 31 + c) % 18446744073709551616) s

abbrev pub make_negative : ℤ → ℤ
make_negative (pos zero) = negsuc 0
make_negative (pos (suc n)) = negsuc n
make_negative (negsuc n) = negsuc n

-- generateTrialTelegramID
unfoldable pub generate_trial_telegram_id : Text → ℤ
generate_trial_telegram_id subscription_id = make_negative (signed64 (hash_runes 0 subscription_id))

-- SELECT * FROM plans WHERE name = ?
abbrev pub plan_named : String → M (Option Plan)
plan_named name = query (λ t. find (λ p. str_eq p.name name) t.plans)

-- resolveTrialPlanID
unfoldable pub resolve_trial_plan_id : M ℕ
resolve_trial_plan_id =
    plan_named trial_plan_name >>= λ p. or_raise p Error.plan_not_found >>= λ plan. pure plan.id

-- the unique indexes of subscriptions
abbrev pub conflicts : Subscription → Subscription → Bool
conflicts new s =
    eqb_ℤ s.telegram_id new.telegram_id
    || (str_eq s.client_id new.client_id || str_eq s.subscription_id new.subscription_id)

-- INSERT INTO subscriptions, with the id that the database gives
abbrev pub insert_subscription : (ℕ → Subscription) → M Subscription
insert_subscription make = statement (λ t.
    let new = make t.next_subscription_id in
    if any_of (conflicts new) t.subscriptions then (err Error.unique_constraint, t) else (
      ok new,
      record t {
        subscriptions = t.subscriptions ++ (new ∷ []);
        next_subscription_id = suc t.next_subscription_id;
      },
    ))

abbrev pub new_trial : String → String → String → Time → Time → ℕ → ℕ → Subscription
new_trial invite_code subscription_id client_id expiry now plan_id id = record {
  id = id;
  telegram_id = generate_trial_telegram_id (text_of subscription_id);
  username = "";
  client_id = client_id;
  subscription_id = subscription_id;
  expires_at = some expiry;
  status = SubscriptionStatus.active;
  invite_code = if str_eq invite_code "" then none else some invite_code;
  plan_id = plan_id;
  referred_by = none;
  product_id = none;
  started_at = none;
  price_paid_cents = pos 0;
  currency = none;
  reminders_sent = 0;
  traffic_reminders_sent = 0;
  created_at = now;
}

-- CreateTrialSubscription
unfoldable pub create_trial_subscription : String → String → String → Time → Time → M Subscription
create_trial_subscription invite_code subscription_id client_id expiry now = do
  plan_id ← resolve_trial_plan_id
  insert_subscription (new_trial invite_code subscription_id client_id expiry now plan_id)

abbrev pub has_sub : String → Subscription → Bool
has_sub subscription_id s = str_eq s.subscription_id subscription_id

abbrev pub if_trial : Subscription → Option Plan → M Subscription
if_trial sub none = raise Error.not_a_trial
if_trial sub (some plan) =
    if str_eq plan.name trial_plan_name then pure sub else raise Error.not_a_trial

-- GetTrialSubscriptionBySubID
unfoldable pub get_trial_subscription_by_sub_id : String → M Subscription
get_trial_subscription_by_sub_id subscription_id = do
  found ← query (λ t. find (has_sub subscription_id) t.subscriptions)
  sub ← or_raise found Error.subscription_not_found
  plan ← query (λ t. find (λ p. p.id == sub.plan_id) t.plans)
  if_trial sub plan

abbrev pub is_unbound : Subscription → Bool
is_unbound s = ltb_ℤ s.telegram_id (pos 0)

-- `subscription_id = ? AND plan_id = ? AND telegram_id < 0 AND status = active`
abbrev pub is_open_trial : String → ℕ → Subscription → Bool
is_open_trial subscription_id plan_id s =
    has_sub subscription_id s
    && (s.plan_id == plan_id && (is_unbound s && is_active_subscription s.status))

abbrev pub referrer : Option Invite → ℤ
referrer none = pos 0
referrer (some i) = i.referrer_tg_id

abbrev pub find_referrer : Option String → M ℤ
find_referrer none = pure (pos 0)
find_referrer (some code) =
    if str_eq code ""
    then pure (pos 0)
    else query (λ t. referrer (find (λ i. str_eq i.code code) t.invites))

-- `id = ? AND telegram_id < 0 AND plan_id = ?`
abbrev pub is_target : ℕ → ℕ → Subscription → Bool
is_target id plan_id s = s.id == id && (is_unbound s && s.plan_id == plan_id)

abbrev pub bind_row : ℤ → String → ℕ → ℤ → Subscription → Subscription
bind_row telegram_id username free_plan_id referred_by s = record s {
  telegram_id = telegram_id;
  username = username;
  plan_id = free_plan_id;
  referred_by = some referred_by;
  expires_at = none;
}

-- another row has the user already
abbrev pub is_taken : (Subscription → Bool) → ℤ → List Subscription → Bool
is_taken target telegram_id rows =
    ltb 0 (count_if target rows)
    && any_of (λ s. eqb_ℤ s.telegram_id telegram_id && not (target s)) rows

abbrev pub update_bound : (Subscription → Bool) → ℤ → (Subscription → Subscription) → M ℕ
update_bound target telegram_id f = statement (λ t.
    if is_taken target telegram_id t.subscriptions then (err Error.unique_constraint, t) else (
      ok (count_if target t.subscriptions),
      record t { subscriptions = update_if target f t.subscriptions },
    ))

-- the row that BindTrialSubscription returns: without an invite it has no referrer
abbrev pub bound_trial : ℤ → String → ℕ → ℤ → Subscription → Subscription
bound_trial telegram_id username free_plan_id referred_by s = record s {
  telegram_id = telegram_id;
  username = username;
  plan_id = free_plan_id;
  expires_at = none;
  referred_by = if eqb_ℤ referred_by (pos 0) then s.referred_by else some referred_by;
}

-- the free plan, and the update, once the trial and its referrer are found
unfoldable pub bind_found : ℕ → Subscription → ℤ → String → ℤ → M Subscription
bind_found trial_plan_id sub telegram_id username referred_by = do
  free ← plan_named free_plan_name
  free_plan ← or_raise free Error.record_not_found
  n ←
      update_bound (is_target sub.id trial_plan_id) telegram_id
        (bind_row telegram_id username free_plan.id referred_by)
  if n == 0
      then raise Error.trial_already_activated
      else pure (bound_trial telegram_id username free_plan.id referred_by sub)

-- the transaction of BindTrialSubscription
unfoldable pub bind_body : String → ℤ → String → M Subscription
bind_body subscription_id telegram_id username = do
  trial ← plan_named trial_plan_name
  trial_plan ← or_raise trial Error.record_not_found
  found ← query (λ t. find (is_open_trial subscription_id trial_plan.id) t.subscriptions)
  sub ← or_raise found Error.trial_already_activated
  referred_by ← find_referrer sub.invite_code
  bind_found trial_plan.id sub telegram_id username referred_by

-- BindTrialSubscription
unfoldable pub bind_trial_subscription : String → ℤ → String → M Subscription
bind_trial_subscription subscription_id telegram_id username =
    transaction (bind_body subscription_id telegram_id username)
