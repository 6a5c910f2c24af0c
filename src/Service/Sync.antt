-- ===== src/Service/Sync.antt =====
-- internal/service/sync.go: the retry policy of a pending binding, and its release. `now` stands for
-- the call of time.Now. What the policy asks of an error is a field of SyncFailure: the packages
-- that raise the error decide it (utils.IsCtxErr, utils.IsRetryable, errors.Is).
pub mod Ladder
pub mod Rows
use rs8kvn_bot.Common.{
  ℕ, zero, suc, ◌+◌, ◌*◌, Bool, true, false, not, ◌&&◌, ◌||◌, Option, none, some, String, List, [],
  ◌∷◌, ltb, leb, ◌==◌, if◌then◌else◌, find, select, any_of, map,
}
use rs8kvn_bot.Database.Models.{Time, minute, Node, SubscriptionNode, SyncStatus}
use rs8kvn_bot.Database.Monad.{
  M, Db, Error, Result, ok, err, pure, ◌>>=◌, ◌>>◌, query, best_effort, or_raise,
}
use rs8kvn_bot.Service.PlanReconcile.{is_ctx_err}
use rs8kvn_bot.Database.SubscriptionNodes.{
  truncate_minute, retries_after, set_retry, update_retry, update_subscription_node_status,
  release_parked_nodes_on_node,
}

pub record SyncFailure : Type 0 where
  pub is_ctx_err : Bool
  pub is_retryable : Bool
  pub node_unavailable : Bool
  pub incomplete_fanout : Bool
  pub non_200_response : Bool
  pub transient_db : Bool
  pub message : String

abbrev pub max_sync_retries : ℕ
max_sync_retries = 10

-- 9999-12-31 23:59:00 UTC
abbrev pub parked_retry_at : Time
parked_retry_at = 253402300740000000000

abbrev pub parked_retry_threshold : Time
parked_retry_threshold = 61 * minute

abbrev pub retry_backoff_intervals : List Time
retry_backoff_intervals =
    1 * minute
    ∷ 2 * minute
    ∷ 5 * minute
    ∷ 15 * minute
    ∷ 30 * minute
    ∷ 45 * minute
    ∷ 60 * minute
    ∷ []

-- the element at an index, and the last one beyond the end
abbrev pub at_or_last : List Time → ℕ → Time
at_or_last [] n = 0
at_or_last (x ∷ []) n = x
at_or_last (x ∷ y ∷ rest) zero = x
at_or_last (x ∷ y ∷ rest) (suc n) = at_or_last (y ∷ rest) n

unfoldable pub calculate_retry_at : Time → ℕ → Time
calculate_retry_at now retry_count =
    truncate_minute now + at_or_last retry_backoff_intervals retry_count

abbrev pub retryable : SyncFailure → Bool
retryable f =
    f.is_retryable
    || (f.node_unavailable || (f.incomplete_fanout || (not f.non_200_response && f.transient_db)))

-- `!retryable || sn.RetryCount >= maxSyncRetries`
abbrev pub parks : SyncFailure → SubscriptionNode → Bool
parks f sn = not (retryable f) || leb max_sync_retries sn.retry_count

-- the retry fields that the policy gives to the binding
unfoldable pub after_failure : Time → SyncFailure → SubscriptionNode → SubscriptionNode
after_failure now f sn =
    if f.is_ctx_err
    then sn
    else if parks f sn
    then set_retry sn.retry_count (some parked_retry_at) (some f.message) sn
    else set_retry (suc sn.retry_count) (some (calculate_retry_at now sn.retry_count))
        (some f.message) sn

-- UpdateRetry, with its error logged
abbrev pub save_retry : SubscriptionNode → M SubscriptionNode
save_retry sn =
    best_effort
      (update_retry sn.subscription_id sn.node_id sn.retry_count sn.retry_at sn.last_error)
    >> pure sn

-- handleSyncError; the result is the binding in memory.
unfoldable pub handle_sync_error : Time → SubscriptionNode → SyncFailure → M SubscriptionNode
handle_sync_error now sn f = if f.is_ctx_err then pure sn else save_retry (after_failure now f sn)

-- GetNodeByID
unfoldable pub get_node_by_id : ℕ → M Node
get_node_by_id id =
    query (λ t. find (λ n. n.id == id) t.nodes) >>= λ n. or_raise n Error.node_not_found

abbrev pub unavailable : String → SyncFailure
unavailable message = record {
  is_ctx_err = false;
  is_retryable = false;
  node_unavailable = true;
  incomplete_fanout = false;
  non_200_response = false;
  transient_db = false;
  message = message;
}

-- retryUnavailableNode: the three texts differ, the policy does not.
unfoldable pub retry_unavailable_node :
    (String × String × String) → Time → SubscriptionNode → M SubscriptionNode
retry_unavailable_node (not_loaded, inactive, no_client) now sn db =
    let (r, db') = get_node_by_id sn.node_id db in
    elim r [
      | err e ↦
          handle_sync_error now sn (record (unavailable not_loaded) { is_ctx_err = is_ctx_err e })
            db'
      | ok node ↦
          if node.is_active
          then handle_sync_error now sn (unavailable no_client) db'
          else handle_sync_error now sn (unavailable inactive) db'
    ]

-- fallbackUpdateToCreate
unfoldable pub fallback_update_to_create : SubscriptionNode → M (Unit {0})
fallback_update_to_create sn =
    update_subscription_node_status sn.subscription_id sn.node_id SyncStatus.pending_add

abbrev pub distinct : List ℕ → List ℕ
distinct [] = []
distinct (n ∷ ns) = let rest = distinct ns in if any_of (λ m. m == n) ns then rest else n ∷ rest

-- GetNodesWithParkedSync; the order of the rows is not fixed.
unfoldable pub get_nodes_with_parked_sync : Time → M (List ℕ)
get_nodes_with_parked_sync limit = query (λ t.
    distinct
      (map (λ r. r.node_id) (select (λ r. retries_after limit r.retry_at) t.subscription_nodes)))

-- What a run sees of the nodes: the health of before, the context, and the answer to a ping (`none`
-- when the node has no reader).
pub record Probe : Type 0 where
  pub was_healthy : ℕ → Bool
  pub is_canceled : ℕ → Bool
  pub ping : ℕ → Option Bool

abbrev answers : Option Bool → Bool
answers none = false
answers (some alive) = alive

abbrev ignore : M ℕ → M (Unit {0})
ignore m = best_effort (m >>= λ n. pure tt)

unfoldable pub release_nodes : Probe → Time → List ℕ → M (Unit {0})
release_nodes probe limit [] = pure tt
release_nodes probe limit (n ∷ ns) =
    let rest = release_nodes probe limit ns in
    if probe.was_healthy n
    then rest
    else if probe.is_canceled n
    then pure tt
    else if answers (probe.ping n)
    then (ignore (release_parked_nodes_on_node n limit) >> rest)
    else rest

-- releaseRecoveredNodes
unfoldable pub release_recovered_nodes : Probe → Time → M (Unit {0})
release_recovered_nodes probe now =
    let limit = now + parked_retry_threshold in
    best_effort (get_nodes_with_parked_sync limit >>= release_nodes probe limit)
