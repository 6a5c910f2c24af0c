-- ===== src/Database/Broadcasts/Histories.antt =====
-- Operations of the broadcast store in any order, with any failures: what becomes of a snapshot.
use rs8kvn_bot.Common.{ℕ, ◌≡◌, sym, List}
use rs8kvn_bot.Common.Int.{ℤ}
use rs8kvn_bot.Common.Text.{Text}
use rs8kvn_bot.Database.Models.{Time, Broadcast, RecipientStatus}
use rs8kvn_bot.Database.Monad.{Db, Tables}
use rs8kvn_bot.Database.Broadcasts.{
  claim_broadcast, cancel_body, cancel_broadcast, update_broadcast,
}
use rs8kvn_bot.Database.Broadcasts.Recipients.{
  snapshot_broadcast_recipients, recover_stale, recover_stale_broadcast_recipients, claim_pending,
  batch_limit, claim_broadcast_recipients, change_lease, finish_broadcast_recipient, at_chunk,
  update_broadcast_recipient_progress, reset_body, reset_broadcast_failed_recipients,
}
use rs8kvn_bot.Database.Broadcasts.Evolves.{TableEvolves, TableEvolves-refl, TableEvolves-trans}
use rs8kvn_bot.Database.Broadcasts.Mutations.{
  recover_stale-IsGentle, claim_pending-IsGentle, change_lease-IsGentle, at_chunk-Evolves,
}
use rs8kvn_bot.Database.Broadcasts.Runs.{after, transaction-TableEvolves, update_state-TableEvolves}
use rs8kvn_bot.Database.Broadcasts.Operations.{
  snapshot-TableEvolves, finish-TableEvolves, claim-TableEvolves, cancel_body-TableEvolves,
  reset_body-TableEvolves, update-TableEvolves,
}

-- The operations of the store that write broadcasts, but the insertion of one.
pub data Operation : Type 0 where
  snapshot : (Tables → List ℤ) → ℕ → Time → Operation
  claim cancel reset : ℕ → Time → Operation
  recover : ℕ → Time → Time → Operation
  claim_recipients : ℕ → Time → ℤ → Operation
  finish : ℕ → ℕ → ℕ → RecipientStatus → Text → Time → Operation
  progress : ℕ → ℕ → ℕ → ℕ → Time → Operation
  update : Broadcast → Operation

abbrev pub run : Operation → Db → List Broadcast
run (snapshot audience id now) = after (snapshot_broadcast_recipients audience id now)
run (claim id now) = after (claim_broadcast id now)
run (cancel id now) = after (cancel_broadcast id now)
run (reset id now) = after (reset_broadcast_failed_recipients id now)
run (recover id before now) = after (recover_stale_broadcast_recipients id before now)
run (claim_recipients id now limit) = after (claim_broadcast_recipients id now limit)
run (finish broadcast_id id attempts status e now) =
    after (finish_broadcast_recipient broadcast_id id attempts status e now)
run (progress broadcast_id id attempts chunk now) =
    after (update_broadcast_recipient_progress broadcast_id id attempts chunk now)
run (update b) = after (update_broadcast b)

pub run-TableEvolves : (op : Operation) (db : Db) → TableEvolves db.tables.broadcasts (run op db)
unfolding cancel_broadcast reset_broadcast_failed_recipients recover_stale_broadcast_recipients
    claim_broadcast_recipients update_broadcast_recipient_progress
run-TableEvolves (snapshot audience id now) = snapshot-TableEvolves audience id now
run-TableEvolves (claim id now) = claim-TableEvolves id now
run-TableEvolves (cancel id now) =
    transaction-TableEvolves (cancel_body id now) (cancel_body-TableEvolves id now)
run-TableEvolves (reset id now) =
    transaction-TableEvolves (reset_body id now) (reset_body-TableEvolves id now)
run-TableEvolves (recover id before now) =
    update_state-TableEvolves id (recover_stale before now) (recover_stale-IsGentle before now)
run-TableEvolves (claim_recipients id now limit) =
    update_state-TableEvolves id (claim_pending now (batch_limit limit))
      (claim_pending-IsGentle now (batch_limit limit))
run-TableEvolves (finish broadcast_id id attempts status e now) =
    finish-TableEvolves broadcast_id id attempts status e now
run-TableEvolves (progress broadcast_id id attempts chunk now) =
    update_state-TableEvolves broadcast_id (change_lease id attempts (at_chunk chunk now))
      (change_lease-IsGentle id attempts (at_chunk chunk now) (λ r h. at_chunk-Evolves chunk now r))
run-TableEvolves (update b) = update-TableEvolves b

-- What the table becomes, when each operation meets a database with this table, other tables as
-- they may be then, and statements that fail as they may.
pub data Reach (bs : List Broadcast) : List Broadcast → Type 0 where
  here : Reach bs bs
  next :
      {cs : List Broadcast} (op : Operation) (db : Db)
      → Reach bs cs
      → db.tables.broadcasts ≡ cs
      → Reach bs (run op db)

-- After any operations of the store in any order, whichever statements fail, a snapshot that was
-- taken is still there, recipient by recipient: with the same ids and users, attempts that did not
-- fall, no lease of an ended attempt live again, and every recipient that was sent to, blocked or
-- unreachable still in that status.
pub broadcast_lifecycle : {bs cs : List Broadcast} → Reach bs cs → TableEvolves bs cs
broadcast_lifecycle {bs} here = TableEvolves-refl bs
broadcast_lifecycle {bs} (next {cs} op db r e) =
    TableEvolves-trans bs cs (run op db) (broadcast_lifecycle r)
      (subst_table (run-TableEvolves op db))
  where
    subst_table : TableEvolves db.tables.broadcasts (run op db) → TableEvolves cs (run op db)
    subst_table h = rw (sym e) h
