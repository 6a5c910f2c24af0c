-- ===== src/Service/Sync/Ladder.antt =====
-- How long a failing binding is retried, and when it parks.
use rs8kvn_bot.Common.{
  ℕ, zero, suc, ◌+◌, ◌*◌, ◌≤◌, ◌<◌, Bool, true, false, not, ◌&&◌, some, List, [], ◌∷◌, ◌≡◌, arith,
  ltb, length, all_of, ◌∙◌, Bool-cases, inl, inr,
}
use rs8kvn_bot.Database.Models.{Time, minute, SubscriptionNode}
use rs8kvn_bot.Database.SubscriptionNodes.{retries_after}
use rs8kvn_bot.Service.Sync.{
  SyncFailure, at_or_last, retry_backoff_intervals, calculate_retry_at, retryable, parks,
  after_failure, parked_retry_at, parked_retry_threshold,
}

interval_bound :
    (n : ℕ)
    → (minute ≤ at_or_last retry_backoff_intervals n)
      × (at_or_last retry_backoff_intervals n ≤ 60 * minute)
interval_bound zero = (omega arith, omega arith)
interval_bound (suc zero) = (omega arith, omega arith)
interval_bound (suc (suc zero)) = (omega arith, omega arith)
interval_bound (suc (suc (suc zero))) = (omega arith, omega arith)
interval_bound (suc (suc (suc (suc zero)))) = (omega arith, omega arith)
interval_bound (suc (suc (suc (suc (suc zero))))) = (omega arith, omega arith)
interval_bound (suc (suc (suc (suc (suc (suc n)))))) = (omega arith, omega arith)

-- A rung of the ladder is after now, and at most an hour after.
calculate_retry_at-bounds :
    (now : Time) (n : ℕ)
    → (now < calculate_retry_at now n) × (calculate_retry_at now n ≤ now + 60 * minute)
unfolding calculate_retry_at
calculate_retry_at-bounds now n =
    (omega (arith, (interval_bound n).0), omega (arith, (interval_bound n).1))

-- A failure that the context did not cause leaves the binding parked, as a later scan for parked
-- bindings sees it, exactly when the failure is not retryable or the retries are used up: a rung of
-- the ladder is never taken for parking. (The scan runs before the year 9999.)
pub parked_after_failure :
    (now later : Time) (f : SyncFailure) (sn : SubscriptionNode)
    → f.is_ctx_err ≡ false
    → now ≤ later
    → later + parked_retry_threshold < parked_retry_at
    → retries_after (later + parked_retry_threshold) (after_failure now f sn).retry_at ≡ parks f sn
unfolding after_failure
parked_after_failure now later f sn live le before = elim (Bool-cases (parks f sn)) [
  | inl p ↦ ground (arith, p)
  | inr p ↦ ground (arith, p, (calculate_retry_at-bounds now sn.retry_count).1)
]

-- failures one after another, each with the time at which it is handled
abbrev pub after_failures : List (Time × SyncFailure) → SubscriptionNode → SubscriptionNode
after_failures [] sn = sn
after_failures ((now, f) ∷ rest) sn = after_failures rest (after_failure now f sn)

abbrev pub is_retried : Time × SyncFailure → Bool
is_retried (now, f) = not f.is_ctx_err && retryable f

stays_parked :
    (now : Time) (f : SyncFailure) (sn : SubscriptionNode)
    → is_retried (now, f) ≡ true
    → 10 ≤ sn.retry_count
    → ((after_failure now f sn).retry_count ≡ sn.retry_count)
      × ((after_failure now f sn).retry_at ≡ some parked_retry_at)
unfolding after_failure
stays_parked now f sn h full = (ground arith, ground arith)

climbs :
    (now : Time) (f : SyncFailure) (sn : SubscriptionNode)
    → is_retried (now, f) ≡ true
    → sn.retry_count < 10
    → (after_failure now f sn).retry_count ≡ suc sn.retry_count
unfolding after_failure
climbs now f sn h room = ground arith

abbrev pub IsExhausted : SubscriptionNode → Type 0
IsExhausted sn = (sn.retry_at ≡ some parked_retry_at) × (sn.retry_count ≡ 10)

remains-IsExhausted :
    (fs : List (Time × SyncFailure)) (sn : SubscriptionNode)
    → all_of is_retried fs ≡ true
    → IsExhausted sn
    → IsExhausted (after_failures fs sn)
remains-IsExhausted [] sn h full = full
remains-IsExhausted ((now, f) ∷ rest) sn h full =
    let step = stays_parked now f sn (ground arith) (omega (arith, full.1)) in
    remains-IsExhausted rest (after_failure now f sn) (ground arith) (step.1, step.0 ∙ full.1)

-- Retried failures end: a binding with at most ten retries so far is parked, with ten retries,
-- once its retries and the failures handled are eleven or more, whenever they were handled.
pub retries-IsExhausted :
    (fs : List (Time × SyncFailure)) (sn : SubscriptionNode)
    → all_of is_retried fs ≡ true
    → sn.retry_count ≤ 10
    → 11 ≤ length fs + sn.retry_count
    → IsExhausted (after_failures fs sn)
retries-IsExhausted [] sn h le many = absurd (omega (arith, le, many))
retries-IsExhausted ((now, f) ∷ rest) sn h le many = elim (Bool-cases (ltb sn.retry_count 10)) [
  | inl room ↦
      let step = climbs now f sn (ground arith) (ground arith) in
      retries-IsExhausted rest (after_failure now f sn) (ground arith) (ground (arith, step))
        (ground (arith, step))
  | inr full ↦
      let step = stays_parked now f sn (ground arith) (ground arith) in
      remains-IsExhausted rest (after_failure now f sn) (ground arith)
        (step.1, ground (arith, step.0))
]
