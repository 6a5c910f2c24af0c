-- ===== src/Database/Subscriptions.antt =====
-- internal/database/subscriptions.go and plans.go: the lookups of a subscription and of a plan, and
-- the return of an expired subscription to the free plan.
pub mod Expiry
use rs8kvn_bot.Common.{
  ℕ, Bool, true, false, not, ◌&&◌, ◌||◌, Option, none, some, String, leb, ◌==◌, if◌then◌else◌, find,
  str_eq,
}
use rs8kvn_bot.Common.Int.{pos, eqb_ℤ}
use rs8kvn_bot.Database.Models.{Time, Subscription, Plan, is_active_subscription}
use rs8kvn_bot.Database.Monad.{M, Error, pure, raise, or_raise, ◌>>=◌, ◌>>◌, query, transaction}
use rs8kvn_bot.Database.Orders.Confirm.{ApplyPlanInTx, update_subscriptions, first_subscription}
use rs8kvn_bot.Database.Orders.Chargeback.{downgrade, run_apply}

-- GetByID
unfoldable pub get_by_id : ℕ → M Subscription
get_by_id id = first_subscription id

abbrev pub free_plan_name : String
free_plan_name = "free"

-- GetPlanByName: the free plan whether it is active or not.
unfoldable pub get_plan_by_name : String → M Plan
get_plan_by_name name =
    query
      (λ t. find (λ p. str_eq p.name name && (str_eq name free_plan_name || p.is_active)) t.plans)
    >>= λ p. or_raise p Error.plan_not_found

-- GetPlanByID
unfoldable pub get_plan_by_id : ℕ → M Plan
get_plan_by_id id =
    query (λ t. find (λ p. p.id == id) t.plans) >>= λ p. or_raise p Error.plan_not_found

abbrev pub is_due_at : Option Time → Time → Bool
is_due_at none now = false
is_due_at (some t) now = leb t now

-- `id = ? AND status = active AND expires_at IS NOT NULL AND expires_at <= ?`
abbrev pub has_lapsed : ℕ → Time → Subscription → Bool
has_lapsed id now s = s.id == id && (is_active_subscription s.status && is_due_at s.expires_at now)

abbrev pub is_none {ℓ} : {A : Type ℓ} → Option A → Bool
is_none none = true
is_none (some a) = false

-- the state that a downgrade leaves
abbrev pub is_downgraded : ℕ → Subscription → Bool
is_downgraded free_plan_id s =
    is_active_subscription s.status
    && (s.plan_id == free_plan_id
        && (is_none s.expires_at
            && (is_none s.product_id
                && (is_none s.started_at
                    && (eqb_ℤ s.price_paid_cents (pos 0) && is_none s.currency)))))

-- The transaction's body.
unfoldable pub expire_subscription_body : ℕ → ℕ → Time → ApplyPlanInTx → M (Unit {0})
expire_subscription_body id free_plan_id now apply = do
  n ← update_subscriptions (has_lapsed id now) (downgrade free_plan_id)
  if n == 0
      then (first_subscription id >>= λ current.
          if is_downgraded free_plan_id current then pure tt else raise Error.state_changed)
      else run_apply apply id free_plan_id

-- ExpireSubscriptionWithPlanCAS
unfoldable pub expire_subscription_with_plan_cas : ℕ → ℕ → Time → ApplyPlanInTx → M (Unit {0})
expire_subscription_with_plan_cas id free_plan_id now apply =
    transaction (expire_subscription_body id free_plan_id now apply)
