-- ===== src/Service/PlanReconcile/Table.antt =====
-- The transition table at the head of internal/service/plan_reconcile.go, as a function of one
-- binding, apart from the loops that carry it out.
use rs8kvn_bot.Common.{ℕ, Bool, true, false, Option, none, some}
use rs8kvn_bot.Database.Models.{SubscriptionNode, SyncStatus}
use rs8kvn_bot.Database.SubscriptionNodes.{set_status}
use rs8kvn_bot.Database.SubscriptionNodes.Lookup.{fresh_row, map_row, marked}

abbrev pub add_row : SyncStatus → SubscriptionNode → SubscriptionNode
add_row SyncStatus.pending_remove r = set_status SyncStatus.pending_add r
add_row _ r = r

abbrev pub remove_row : SyncStatus → SubscriptionNode → SubscriptionNode
remove_row SyncStatus.pending_remove r = r
remove_row _ r = set_status SyncStatus.pending_remove r

-- ADD for nodes of the target, REMOVE for the others
abbrev pub transition : ℕ → ℕ → Bool → Option SubscriptionNode → Option SubscriptionNode
transition sub_id node_id true none = some (fresh_row sub_id node_id)
transition sub_id node_id true (some r) = some (add_row r.status r)
transition sub_id node_id false none = none
transition sub_id node_id false (some r) = some (remove_row r.status r)

-- the mark step, and then the table
abbrev pub apply_transition : ℕ → ℕ → Bool → Option SubscriptionNode → Option SubscriptionNode
apply_transition sub_id node_id target b =
    transition sub_id node_id target (map_row (marked target) b)
