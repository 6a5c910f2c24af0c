-- ===== src/Service/Sync/Rows.antt =====
-- What the retry policy writes to the table, whichever statements fail.
use rs8kvn_bot.Common.{
  ℕ, Bool, true, Option, none, some, List, [], ◌∷◌, ◌≡◌, refl, arith, update_if, ==_refl,
  count_if-found, find-pass, String,
}
use rs8kvn_bot.Database.Models.{Time, SubscriptionNode, SyncStatus}
use rs8kvn_bot.Database.Monad.{Db, ok, IsCalm}
use rs8kvn_bot.Database.SubscriptionNodes.{
  has_key, set_status, set_retry, update_retry, update_subscription_node_status, is_due,
}
use rs8kvn_bot.Database.SubscriptionNodes.Lookup.{binding, binding-set_status}
use rs8kvn_bot.Service.PlanReconcile.Effects.{rows_of}
use rs8kvn_bot.Service.Sync.{
  SyncFailure, handle_sync_error, after_failure, fallback_update_to_create,
}

abbrev pub status_of : Option SubscriptionNode → Option SyncStatus
status_of none = none
status_of (some r) = some r.status

status-update :
    (s n : ℕ) (p : SubscriptionNode → Bool) (c : ℕ) (at : Option Time) (e : Option String)
    (rows : List SubscriptionNode)
    → status_of (binding s n (update_if p (set_retry c at e) rows)) ≡ status_of (binding s n rows)
status-update s n p c at e [] = refl
status-update s n p c at e (r ∷ rows) = ground (arith, status-update s n p c at e rows)

-- Handling a failure changes the status of no binding, whichever of its statements fail: a pending
-- binding stays pending.
pub handle_sync_error_keeps_status :
    (now : Time) (sn : SubscriptionNode) (f : SyncFailure) (db : Db) (s n : ℕ)
    → status_of (binding s n (rows_of (handle_sync_error now sn f db).1))
      ≡ status_of (binding s n (rows_of db))
unfolding handle_sync_error update_retry
handle_sync_error_keeps_status now sn f db s n =
    let sn' = after_failure now f sn in
    ground (
      arith,
      status-update s n (has_key sn'.subscription_id sn'.node_id) sn'.retry_count sn'.retry_at
          sn'.last_error (rows_of db),
    )

-- A re-queued update is a creation that the next scan takes up: when no statement fails and the
-- binding has a row, the call succeeds and leaves it pending_add with no retry pending, so
-- that it is due at every time.
pub fallback_requeues :
    (sn r : SubscriptionNode) (db : Db)
    → IsCalm db
    → binding sn.subscription_id sn.node_id (rows_of db) ≡ some r
    → let (done, after) = fallback_update_to_create sn db in
      (done ≡ ok tt)
      × (binding sn.subscription_id sn.node_id (rows_of after)
          ≡ some (set_status SyncStatus.pending_add r))
      × ((now : Time) → is_due now (set_status SyncStatus.pending_add r).retry_at ≡ true)
unfolding fallback_update_to_create update_subscription_node_status
fallback_requeues sn r db calm h =
    let mine = has_key sn.subscription_id sn.node_id in
    ground (
      arith,
      calm db.tick,
      count_if-found mine mine (rows_of db) r h (find-pass mine (rows_of db) r h),
      binding-set_status sn.subscription_id sn.node_id sn.subscription_id sn.node_id
          SyncStatus.pending_add (rows_of db),
      ==_refl sn.subscription_id,
      ==_refl sn.node_id,
    )
