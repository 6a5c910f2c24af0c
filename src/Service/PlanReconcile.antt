-- ===== src/Service/PlanReconcile.antt =====
-- internal/service/plan_reconcile.go and sync_tx.go, and the entry points of sync.go that apply a
-- plan in the background, without the lock on the subscription and the log. Go ranges over a map in
-- an order that it does not fix: the entries of a map are rows of the loaded list, and `range` is
-- the order of one run. An error that a policy joins is kept in a list.
pub mod Table
pub mod Effects
pub mod Bindings
pub mod Loops
pub mod Laws
pub mod Stores
pub mod Apply
pub mod Removal
pub mod Frame
use rs8kvn_bot.Common.{
  ℕ, Bool, true, false, not, ◌&&◌, Option, none, some, List, [], ◌∷◌, ◌++◌, map, ◌==◌,
  if◌then◌else◌, find, select, any_of,
}
use rs8kvn_bot.Database.Models.{
  Time, Subscription, SubscriptionStatus, Node, SubscriptionNode, SyncStatus,
}
use rs8kvn_bot.Database.Monad.{
  M, Error, Fault, Result, ok, err, pure, raise, or_raise, ◌>>=◌, ◌>>◌, query, execute,
}
use rs8kvn_bot.Database.Orders.Confirm.{first_subscription}
use rs8kvn_bot.Database.SubscriptionNodes.{
  same_sync, has_key, set_status, set_rows, update_nodes, get_by_subscription_id,
  update_subscription_node_status, upsert_subscription_node, upsert_row,
  mark_active_nodes_pending_update,
}
use rs8kvn_bot.Database.SubscriptionNodes.Lookup.{fresh_row}

-- planNodeStore
pub record PlanNodeStore : Type 0 where
  pub load_subscription : ℕ → M Subscription
  pub load_plan_nodes : ℕ → M (List Node)
  pub load_subscription_nodes : ℕ → M (List SubscriptionNode)
  pub mark_active : ℕ → List ℕ → M (Unit {0})
  pub set_node_status : ℕ → ℕ → SyncStatus → M (Unit {0})
  pub upsert_pending_add : SubscriptionNode → M (Unit {0})

-- planReconcileOptions: `aborts` is onNodeError, true when it returns an error.
pub record Options : Type 0 where
  pub read_subscription : Bool
  pub plan_id : ℕ
  pub preloaded_targets : Option (List Node)
  pub aborts : Error → Bool

-- GetNodesByPlanID
unfoldable pub get_nodes_by_plan_id : ℕ → M (List Node)
get_nodes_by_plan_id plan_id = query (λ t.
    select
      (λ n. any_of (λ p. p.plan_id == plan_id && p.node_id == n.id) t.plan_nodes && n.is_active)
      t.nodes)

abbrev pub is_revoked : SubscriptionStatus → Bool
is_revoked SubscriptionStatus.revoked = true
is_revoked _ = false

-- the identifiers of the targets that the loops consider
abbrev pub active_ids : List Node → List ℕ
active_ids nodes = map (λ n. n.id) (select (λ n. n.is_active) nodes)

abbrev pub in_target : List ℕ → ℕ → Bool
in_target ids n = any_of (λ m. m == n) ids

-- an entry of one of the maps currentActive, currentPendingAdd, ...
abbrev pub entry : SyncStatus → ℕ → List SubscriptionNode → Option SubscriptionNode
entry st node_id rows = find (λ r. same_sync r.status st && r.node_id == node_id) rows

abbrev pub has_entry : SyncStatus → ℕ → List SubscriptionNode → Bool
has_entry st node_id rows = any_of (λ r. same_sync r.status st && r.node_id == node_id) rows

-- what the core does with the error of one node
abbrev pub report : (Error → Bool) → M (Unit {0}) → M (List Error)
report aborts m db =
    let (r, db') = m db in
    elim r [ ok u ↦ (ok [], db') | err e ↦ if aborts e then (err e, db') else (ok (e ∷ []), db') ]

-- one operation, and then another, with the errors of both
abbrev pub and_then : M (List Error) → M (List Error) → M (List Error)
and_then m k = m >>= λ es. k >>= λ fs. pure (es ++ fs)

unfoldable pub for_each : {A : Type 0} → (A → M (List Error)) → List A → M (List Error)
for_each f [] = pure []
for_each f (x ∷ xs) = and_then (f x) (for_each f xs)

module _ (store : PlanNodeStore) (aborts : Error → Bool) (sub_id : ℕ) where
  abbrev pub reactivate_or_insert : ℕ → Option SubscriptionNode → M (List Error)
  reactivate_or_insert node_id (some row) =
      report aborts (store.set_node_status row.subscription_id row.node_id SyncStatus.pending_add)
  reactivate_or_insert node_id none =
      report aborts (store.upsert_pending_add (fresh_row sub_id node_id))

  -- the body of the ADD loop, at a node that is active
  unfoldable pub add_target : List SubscriptionNode → ℕ → M (List Error)
  add_target current node_id =
      if has_entry SyncStatus.active node_id current
      then pure []
      else if has_entry SyncStatus.pending_add node_id current
      then pure []
      else if has_entry SyncStatus.pending_update node_id current
      then pure []
      else reactivate_or_insert node_id (entry SyncStatus.pending_remove node_id current)

  -- the body of the REMOVE loops
  unfoldable pub remove_stale : List ℕ → SubscriptionNode → M (List Error)
  remove_stale targets row =
      if in_target targets row.node_id
      then pure []
      else report aborts
          (store.set_node_status row.subscription_id row.node_id SyncStatus.pending_remove)

-- dbServicePlanStore
unfoldable pub db_service_plan_store : PlanNodeStore
db_service_plan_store = record {
  load_subscription = first_subscription;
  load_plan_nodes = get_nodes_by_plan_id;
  load_subscription_nodes = get_by_subscription_id;
  mark_active = mark_active_nodes_pending_update;
  set_node_status = update_subscription_node_status;
  upsert_pending_add = upsert_subscription_node;
}

-- txPlanStore: the same statements, and SetNodeStatus does not look at RowsAffected.
unfoldable pub tx_plan_store : PlanNodeStore
tx_plan_store = record {
  load_subscription = λ s. query (λ t. find (λ u. u.id == s) t.subscriptions) >>= λ found.
      or_raise found Error.record_not_found;
  load_plan_nodes = get_nodes_by_plan_id;
  load_subscription_nodes = get_by_subscription_id;
  mark_active = mark_active_nodes_pending_update;
  set_node_status = λ s n st. update_nodes (has_key s n) (set_status st) >>= λ _. pure tt;
  upsert_pending_add = λ new. execute (λ t. set_rows t (upsert_row new t.subscription_nodes));
}

-- utils.IsCtxErr
abbrev pub is_ctx_err : Error → Bool
is_ctx_err (Error.fault Fault.canceled) = true
is_ctx_err _ = false

-- errors.Join, read by its first error
abbrev pub join_errors : List Error → M (Unit {0})
join_errors [] = pure tt
join_errors (e ∷ es) = raise e

unfoldable pub mark_nodes_for_removal : List SubscriptionNode → M (Unit {0})
mark_nodes_for_removal [] = pure tt
mark_nodes_for_removal (r ∷ rows) =
    update_subscription_node_status r.subscription_id r.node_id SyncStatus.pending_remove
    >> mark_nodes_for_removal rows

unfoldable pub mark_all_for_removal_locked : ℕ → M (Unit {0})
mark_all_for_removal_locked sub_id = get_by_subscription_id sub_id >>= mark_nodes_for_removal

abbrev pub background_options : Options
background_options = record {
  read_subscription = true;
  plan_id = 0;
  preloaded_targets = none;
  aborts = is_ctx_err;
}

abbrev pub tx_options : ℕ → List Node → Options
tx_options plan_id targets = record {
  read_subscription = false;
  plan_id = plan_id;
  preloaded_targets = some targets;
  aborts = λ e. true;
}

module _ (range : List SubscriptionNode → List SubscriptionNode) where
  abbrev pub entries : SyncStatus → List SubscriptionNode → List SubscriptionNode
  entries st rows = range (select (λ r. same_sync r.status st) rows)

  -- the four loops
  unfoldable pub reconcile_rows :
      PlanNodeStore → (Error → Bool) → ℕ → List ℕ → List SubscriptionNode → M (List Error)
  reconcile_rows store aborts sub_id targets current =
      let remove = λ (st : SyncStatus).
        for_each (remove_stale store aborts sub_id targets) (entries st current) in
      and_then (for_each (add_target store aborts sub_id current) targets) (
        and_then (remove SyncStatus.active)
          (and_then (remove SyncStatus.pending_add) (remove SyncStatus.pending_update)))

  abbrev load_targets : PlanNodeStore → ℕ → Option (List Node) → M (List Node)
  load_targets store plan_id none = store.load_plan_nodes plan_id
  load_targets store plan_id (some nodes) = pure nodes

  abbrev pub reconcile_plan : PlanNodeStore → ℕ → Options → ℕ → M (List Error)
  reconcile_plan store sub_id opt plan_id = do
    targets ← load_targets store plan_id opt.preloaded_targets
    current ← store.load_subscription_nodes sub_id
    reconcile_rows store opt.aborts sub_id (active_ids targets) current

  unfoldable pub reconcile_plan_nodes_core : PlanNodeStore → ℕ → Options → M (List Error)
  reconcile_plan_nodes_core store sub_id opt =
      if opt.read_subscription
      then (store.load_subscription sub_id >>= λ sub.
          if is_revoked sub.status then pure [] else reconcile_plan store sub_id opt sub.plan_id)
      else reconcile_plan store sub_id opt opt.plan_id

  unfoldable pub reconcile_plan_nodes_locked : ℕ → M (Unit {0})
  reconcile_plan_nodes_locked sub_id =
      reconcile_plan_nodes_core db_service_plan_store sub_id background_options >>= join_errors

  unfoldable pub apply_plan_to_subscription_locked : ℕ → M (Unit {0})
  apply_plan_to_subscription_locked sub_id = do
    sub ← first_subscription sub_id
    nodes ← get_nodes_by_plan_id sub.plan_id
    mark_active_nodes_pending_update sub_id (active_ids nodes)
    reconcile_plan_nodes_locked sub_id

  -- `tx` is never nil here: ConfirmOrderPaidCAS passes its transaction.
  unfoldable pub apply_plan_to_subscription_in_tx : ℕ → ℕ → M (Unit {0})
  apply_plan_to_subscription_in_tx sub_id plan_id = do
    targets ← tx_plan_store.load_plan_nodes plan_id
    tx_plan_store.mark_active sub_id (active_ids targets)
    reconcile_plan_nodes_core tx_plan_store sub_id (tx_options plan_id targets) >>= join_errors
