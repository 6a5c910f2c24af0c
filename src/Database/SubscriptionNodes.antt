-- ===== src/Database/SubscriptionNodes.antt =====
-- internal/database/subscription_nodes.go: the bindings of subscriptions to nodes, with the retry
-- metadata of their synchronization. `now` stands for the call of time.Now in a query.
pub mod Lookup
use rs8kvn_bot.Common.{
  ℕ, ◌+◌, ◌-◌, ◌%◌, Bool, true, false, not, ◌&&◌, ◌||◌, Option, none, some, String, List, [], ◌∷◌,
  ◌++◌, ltb, leb, ◌==◌, if◌then◌else◌, find, select, count_if, update_if, any_of, map,
}
use rs8kvn_bot.Database.Models.{Time, minute, SubscriptionNode, SyncStatus}
use rs8kvn_bot.Database.Monad.{
  M, Tables, Error, Result, ok, pure, raise, ◌>>=◌, ◌>>◌, query, statement, execute,
}

abbrev pub same_sync : SyncStatus → SyncStatus → Bool
same_sync SyncStatus.active SyncStatus.active = true
same_sync SyncStatus.active _ = false
same_sync SyncStatus.pending_add SyncStatus.pending_add = true
same_sync SyncStatus.pending_add _ = false
same_sync SyncStatus.pending_remove SyncStatus.pending_remove = true
same_sync SyncStatus.pending_remove _ = false
same_sync SyncStatus.pending_update SyncStatus.pending_update = true
same_sync SyncStatus.pending_update _ = false

-- `status IN (pending_add, pending_remove, pending_update)`
abbrev pub is_pending_sync : SyncStatus → Bool
is_pending_sync SyncStatus.active = false
is_pending_sync _ = true

-- time.Time.Truncate(time.Minute)
abbrev pub truncate_minute : Time → Time
truncate_minute t = t - t % minute

-- `retry_at IS NULL OR retry_at <= now`
abbrev pub is_due : Time → Option Time → Bool
is_due now none = true
is_due now (some t) = leb t now

-- `retry_at > parkedAfter`
abbrev pub retries_after : Time → Option Time → Bool
retries_after limit none = false
retries_after limit (some t) = ltb limit t

abbrev pub has_key : ℕ → ℕ → SubscriptionNode → Bool
has_key sub_id node_id r = r.subscription_id == sub_id && r.node_id == node_id

abbrev pub set_rows : Tables → List SubscriptionNode → Tables
set_rows t rows = record t { subscription_nodes = rows }

-- UPDATE subscription_nodes, with RowsAffected
abbrev pub update_nodes : (SubscriptionNode → Bool) → (SubscriptionNode → SubscriptionNode) → M ℕ
update_nodes p f =
    statement
      (λ t. (ok (count_if p t.subscription_nodes), set_rows t (update_if p f t.subscription_nodes)))

unfoldable pub get_by_subscription_id : ℕ → M (List SubscriptionNode)
get_by_subscription_id sub_id =
    query (λ t. select (λ r. r.subscription_id == sub_id) t.subscription_nodes)

unfoldable pub get_pending_sync : Time → M (List SubscriptionNode)
get_pending_sync now = query (λ t.
    select (λ r. is_pending_sync r.status && is_due (truncate_minute now) r.retry_at)
      t.subscription_nodes)

unfoldable pub get_pending_by_subscription_id : Time → ℕ → M (List SubscriptionNode)
get_pending_by_subscription_id now sub_id = query (λ t.
    select
      (λ r.
        r.subscription_id == sub_id
        && (is_pending_sync r.status && is_due (truncate_minute now) r.retry_at))
      t.subscription_nodes)

-- statusUpdate: every transition clears the retry metadata.
abbrev pub set_status : SyncStatus → SubscriptionNode → SubscriptionNode
set_status s r = record r { status = s; retry_count = 0; retry_at = none; last_error = none }

unfoldable pub update_subscription_node_status : ℕ → ℕ → SyncStatus → M (Unit {0})
update_subscription_node_status sub_id node_id s = do
  n ← update_nodes (has_key sub_id node_id) (set_status s)
  if n == 0 then raise Error.subscription_node_not_found else pure tt

-- ON CONFLICT (subscription_id, node_id) DO UPDATE
abbrev pub merge_row : SubscriptionNode → SubscriptionNode → SubscriptionNode
merge_row new old = record old {
  status = new.status;
  retry_count = new.retry_count;
  retry_at = new.retry_at;
  last_error = new.last_error;
}

abbrev pub upsert_row : SubscriptionNode → List SubscriptionNode → List SubscriptionNode
upsert_row new rows =
    let mine = has_key new.subscription_id new.node_id in
    if any_of mine rows then update_if mine (merge_row new) rows else rows ++ new ∷ []

unfoldable pub upsert_subscription_node : SubscriptionNode → M (Unit {0})
upsert_subscription_node new = execute (λ t. set_rows t (upsert_row new t.subscription_nodes))

abbrev pub is_active_target : ℕ → List ℕ → SubscriptionNode → Bool
is_active_target sub_id targets r =
    r.subscription_id == sub_id
    && (any_of (λ n. n == r.node_id) targets && same_sync r.status SyncStatus.active)

abbrev mark_targets : ℕ → List ℕ → M (Unit {0})
mark_targets sub_id targets =
    update_nodes (is_active_target sub_id targets) (set_status SyncStatus.pending_update) >>= λ _.
    pure tt

-- MarkActiveNodesPendingUpdate
unfoldable pub mark_active_nodes_pending_update : ℕ → List ℕ → M (Unit {0})
mark_active_nodes_pending_update sub_id [] = pure tt
mark_active_nodes_pending_update sub_id (n ∷ ns) = mark_targets sub_id (n ∷ ns)

-- DELETE with RowsAffected
abbrev pub delete_nodes : (SubscriptionNode → Bool) → M ℕ
delete_nodes p = statement (λ t. (
  ok (count_if p t.subscription_nodes),
  set_rows t (select (λ r. not (p r)) t.subscription_nodes),
))

unfoldable pub delete_subscription_node : ℕ → ℕ → M (Unit {0})
delete_subscription_node sub_id node_id = do
  n ← delete_nodes (has_key sub_id node_id)
  if n == 0 then raise Error.subscription_node_not_found else pure tt

unfoldable pub delete_subscription_nodes_by_subscription_id : ℕ → M (Unit {0})
delete_subscription_nodes_by_subscription_id sub_id =
    delete_nodes (λ r. r.subscription_id == sub_id) >>= λ _. pure tt

abbrev pub set_retry : ℕ → Option Time → Option String → SubscriptionNode → SubscriptionNode
set_retry count at cause r = record r { retry_count = count; retry_at = at; last_error = cause }

unfoldable pub update_retry : ℕ → ℕ → ℕ → Option Time → Option String → M (Unit {0})
update_retry sub_id node_id count at cause = do
  n ← update_nodes (has_key sub_id node_id) (set_retry count at cause)
  if n == 0 then raise Error.subscription_node_not_found else pure tt

abbrev pub is_parked_on : ℕ → Time → SubscriptionNode → Bool
is_parked_on node_id limit r = r.node_id == node_id && retries_after limit r.retry_at

abbrev pub release : SubscriptionNode → SubscriptionNode
release = set_retry 0 none none

-- ReleaseParkedNodesOnNode
unfoldable pub release_parked_nodes_on_node : ℕ → Time → M ℕ
release_parked_nodes_on_node node_id limit = update_nodes (is_parked_on node_id limit) release

-- CountParkedSubscriptionNodes
unfoldable pub count_parked_subscription_nodes : Time → M ℕ
count_parked_subscription_nodes limit =
    query (λ t. count_if (λ r. retries_after limit r.retry_at) t.subscription_nodes)

-- CountSubscriptionNodesByStatus, at one status
unfoldable pub count_subscription_nodes_by_status : M (SyncStatus → ℕ)
count_subscription_nodes_by_status =
    query (λ t s. count_if (λ r. same_sync r.status s) t.subscription_nodes)
