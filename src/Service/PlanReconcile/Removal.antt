-- ===== src/Service/PlanReconcile/Removal.antt =====
-- internal/service/sync.go: markAllForRemovalLocked, when no statement fails.
use rs8kvn_bot.Common.{ℕ, suc, Bool, Option, if◌then◌else◌, update_if}
use rs8kvn_bot.Database.Models.{SubscriptionNode, SyncStatus}
use rs8kvn_bot.Database.Monad.{Db}
use rs8kvn_bot.Database.SubscriptionNodes.{has_key, set_status}
use rs8kvn_bot.Database.SubscriptionNodes.Lookup.{map_row}
use rs8kvn_bot.Service.PlanReconcile.Effects.{at, rows_of}

abbrev gone : Option SubscriptionNode → Option SubscriptionNode
gone = map_row (set_status SyncStatus.pending_remove)

abbrev gone_if : Bool → Option SubscriptionNode → Option SubscriptionNode
gone_if b o = if b then gone o else o

-- the database after one binding is marked
abbrev marked_db : SubscriptionNode → ℕ → Db → Db
marked_db r s db =
    at db (update_if (has_key s r.node_id) (set_status SyncStatus.pending_remove) (rows_of db))
      (suc db.tick)
