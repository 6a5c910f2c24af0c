-- ===== src/Scenarios/Campaigns.antt =====
-- A broadcast to three users: a claim of two, a delivery, and a retry.
use rs8kvn_bot.Common.{ℕ, false, none, some, [], ◌∷◌, ◌≡◌, ◌≢◌, refl, arith, map, Perm, ◌+◌, length}
use rs8kvn_bot.Common.Int.{pos}
use rs8kvn_bot.Common.Text.{Text}
use rs8kvn_bot.Database.Models.{Time, Broadcast, BroadcastStatus, RecipientStatus, RecipientState}
use rs8kvn_bot.Database.Monad.{Db, ok, transaction}
use rs8kvn_bot.Database.Broadcasts.{update_broadcast_recipient_state, mutate_state, get_broadcast}
use rs8kvn_bot.Database.Broadcasts.Recipients.{
  claim_broadcast_recipients, claim_pending, claim_batch, finish_broadcast_recipient,
  update_broadcast_recipient_progress, take_snapshot, snapshot_broadcast_recipients, change_lease,
  on_lease, reset_broadcast_failed_recipients,
}
use rs8kvn_bot.Database.Broadcasts.Stats.{
  Stats, no_stats, get_broadcast_recipients_stats, count_recipients,
}
use rs8kvn_bot.Database.Broadcasts.Evolves.{TableEvolves, state_of}
use rs8kvn_bot.Database.Broadcasts.Histories.{
  here, next, claim_recipients, finish, reset, broadcast_lifecycle,
}
use rs8kvn_bot.Database.Broadcasts.Leases.{finish_once}
use rs8kvn_bot.Database.Broadcasts.Report.{Accounts, named, stats_account}
use rs8kvn_bot.Database.Broadcasts.Outcomes.{user}
use rs8kvn_bot.Scenarios.{shop}

abbrev news : Broadcast
news = record {
  id = 2;
  name = "news";
  filters = "{}";
  message_text = "hello";
  status = BroadcastStatus.running;
  planned_at = none;
  started_at = some 10;
  finished_at = none;
  recipients_total = 0;
  sent_count = 0;
  blocked_count = 0;
  failed_count = 0;
  unreachable_count = 0;
  delivery_report = "{}";
  last_error = "";
  retry_at = none;
  retry_count = 0;
  recipients_state = some (record { snapshot = false; recipients = [] });
}

abbrev station : Db
station = record shop { tables = record shop.tables { broadcasts = news ∷ [] } }

-- the audience of three users is written down
abbrev addressed : Db
addressed = (snapshot_broadcast_recipients (λ t. pos 41 ∷ pos 42 ∷ pos 43 ∷ []) 2 11 station).1

-- a worker takes two of them
abbrev sending : Db
sending = (claim_broadcast_recipients 2 12 (pos 2) addressed).1

-- and delivers to the first
abbrev delivered : Db
delivered = (finish_broadcast_recipient 2 1 1 RecipientStatus.sent [] 13 sending).1

-- A reset after the delivery does not free the attempt that was finished.
finish_once_example :
    ((status' : RecipientStatus) (last_error' : Text) (now' : Time)
      → (finish_broadcast_recipient 2 1 1 status' last_error' now'
          (reset_broadcast_failed_recipients 2 14 delivered).1).0
        ≢ ok tt)
    × ((next_chunk : ℕ) (now' : Time)
        → (update_broadcast_recipient_progress 2 1 1 next_chunk now'
            (reset_broadcast_failed_recipients 2 14 delivered).1).0
          ≢ ok tt)
unfolding snapshot_broadcast_recipients claim_broadcast_recipients update_broadcast_recipient_state
    mutate_state get_broadcast take_snapshot claim_pending claim_batch transaction
    finish_broadcast_recipient change_lease on_lease
finish_once_example =
    finish_once 2 1 1 RecipientStatus.sent [] 13 sending (λ st e. ground arith) refl
      (next (reset 2 14) delivered here refl) (reset_broadcast_failed_recipients 2 14 delivered).1
      refl

broadcast_lifecycle_example : TableEvolves addressed.tables.broadcasts delivered.tables.broadcasts
broadcast_lifecycle_example = broadcast_lifecycle (
    next (finish 2 1 1 RecipientStatus.sent [] 13) sending
      (next (claim_recipients 2 12 (pos 2)) addressed here refl) refl)

abbrev counted : Stats
counted = record {
  total = 3;
  sent = 1;
  blocked = 0;
  unreachable = 0;
  failed = 0;
  report = record {
    delivered = pos 41 ∷ [];
    blocked = [];
    unreachable = [];
    errors = [];
    not_processed = pos 42 ∷ pos 43 ∷ [];
  };
}

stats_account_example :
    (st : RecipientState) × (state_of 2 delivered.tables.broadcasts ≡ some st)
    × Accounts st.recipients no_stats counted
    × (counted.total
        ≡ counted.sent
          + counted.blocked
          + counted.unreachable
          + counted.failed
          + length counted.report.not_processed)
    × Perm (map user st.recipients) (named counted.report)
unfolding snapshot_broadcast_recipients claim_broadcast_recipients update_broadcast_recipient_state
    mutate_state get_broadcast take_snapshot claim_pending claim_batch transaction
    finish_broadcast_recipient change_lease on_lease get_broadcast_recipients_stats count_recipients
stats_account_example = stats_account 2 delivered counted refl
