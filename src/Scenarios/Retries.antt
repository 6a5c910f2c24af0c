-- ===== src/Scenarios/Retries.antt =====
-- A binding of the shop whose node keeps failing.
use rs8kvn_bot.Common.{true, false, some, List, [], ◌∷◌, ◌≡◌, refl, arith, ◌+◌, ◌*◌}
use rs8kvn_bot.Database.Models.{Time, minute, SubscriptionNode, SyncStatus}
use rs8kvn_bot.Database.Monad.{ok}
use rs8kvn_bot.Database.SubscriptionNodes.{set_status, retries_after, is_due}
use rs8kvn_bot.Database.SubscriptionNodes.Lookup.{binding}
use rs8kvn_bot.Service.PlanReconcile.Effects.{rows_of}
use rs8kvn_bot.Service.Sync.{
  SyncFailure, after_failure, handle_sync_error, unavailable, parked_retry_threshold,
  fallback_update_to_create,
}
use rs8kvn_bot.Service.Sync.Ladder.{
  IsExhausted, after_failures, parked_after_failure, retries-IsExhausted,
}
use rs8kvn_bot.Service.Sync.Rows.{status_of, handle_sync_error_keeps_status, fallback_requeues}
use rs8kvn_bot.Scenarios.{shop, bound}

abbrev down : SyncFailure
down = unavailable "no VPN client"

abbrev failing : SubscriptionNode
failing = bound 11 SyncStatus.pending_add

parked_after_failure_example :
    retries_after
      (5000 * minute + parked_retry_threshold)
      (after_failure 4000 down failing).retry_at
    ≡ false
parked_after_failure_example =
    parked_after_failure 4000 (5000 * minute) down failing refl (omega arith) (omega arith)

abbrev nights : List (Time × SyncFailure)
nights =
    (100, down)
    ∷ (200, down)
    ∷ (300, down)
    ∷ (400, down)
    ∷ (500, down)
    ∷ (600, down)
    ∷ (700, down)
    ∷ (800, down)
    ∷ []

retries-IsExhausted_example : IsExhausted (after_failures nights failing)
retries-IsExhausted_example = retries-IsExhausted nights failing refl (omega arith) (omega arith)

handle_sync_error_keeps_status_example :
    status_of (binding 7 11 (rows_of (handle_sync_error 900 failing down shop).1))
    ≡ some SyncStatus.active
handle_sync_error_keeps_status_example = handle_sync_error_keeps_status 900 failing down shop 7 11

fallback_requeues_example :
    ((fallback_update_to_create failing shop).0 ≡ ok tt)
    × (binding 7 11 (rows_of (fallback_update_to_create failing shop).1)
        ≡ some (set_status SyncStatus.pending_add (bound 11 SyncStatus.active)))
    × ((now : Time)
        → is_due now (set_status SyncStatus.pending_add (bound 11 SyncStatus.active)).retry_at
          ≡ true)
fallback_requeues_example =
    fallback_requeues failing (bound 11 SyncStatus.active) shop (λ n. refl) refl
