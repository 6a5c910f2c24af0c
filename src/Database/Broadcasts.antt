-- ===== src/Database/Broadcasts.antt =====
-- internal/database/broadcast_recipients.go and UpdateBroadcast of broadcasts.go: the life of a
-- broadcast, and the leases of its recipients, which are kept as JSON in the broadcast's row.
pub mod Recipients
pub mod Stats
pub mod Evolves
pub mod Mutations
pub mod Runs
pub mod Operations
pub mod Histories
pub mod Leases
pub mod Batches
pub mod Outcomes
pub mod Report
use rs8kvn_bot.Common.{
  ℕ, zero, suc, ◌+◌, Bool, true, false, not, ◌&&◌, ◌||◌, Option, none, some, String, List, [], ◌∷◌,
  ltb, leb, ◌==◌, if◌then◌else◌, find, select, count_if, update_if, length, take, ◌++◌,
}
use rs8kvn_bot.Common.Int.{ℤ, pos, negsuc}
use rs8kvn_bot.Common.Text.{Text}
use rs8kvn_bot.Database.Models.{
  Time, Broadcast, BroadcastStatus, Recipient, RecipientStatus, RecipientState, BroadcastSendError,
  BroadcastDeliveryReport,
}
use rs8kvn_bot.Database.Monad.{
  Tables, M, Error, Result, ok, err, pure, raise, or_raise, ◌>>=◌, ◌>>◌, statement, query,
  transaction,
}

abbrev pub has_id : ℕ → Broadcast → Bool
has_id id b = b.id == id

abbrev pub is_scheduled : BroadcastStatus → Bool
is_scheduled BroadcastStatus.scheduled = true
is_scheduled _ = false

abbrev pub is_running : BroadcastStatus → Bool
is_running BroadcastStatus.running = true
is_running _ = false

-- UPDATE broadcasts SET ... WHERE ..., with RowsAffected
abbrev pub update_broadcasts : (Broadcast → Bool) → (Broadcast → Broadcast) → M ℕ
update_broadcasts p f =
    statement
      (λ t. (ok (count_if p t.broadcasts), record t { broadcasts = update_if p f t.broadcasts }))

abbrev pub set_state : RecipientState → Broadcast → Broadcast
set_state st b = record b { recipients_state = some st }

-- GetBroadcast
unfoldable pub get_broadcast : ℕ → M Broadcast
get_broadcast id =
    query (λ t. find (has_id id) t.broadcasts) >>= λ b. or_raise b Error.broadcast_not_found

-- What `mutate` does to the state of the recipients, with what it hands to its caller.
abbrev pub Mutation : Type 0 → Type 0
Mutation A = BroadcastStatus → RecipientState → Result (A × RecipientState)

abbrev pub or_fail : {A : Type 0} → Result A → M A
or_fail (ok a) = pure a
or_fail (err e) = raise e

-- the read, the mutation and the write of updateBroadcastRecipientState
unfoldable pub mutate_state : {A : Type 0} → ℕ → Mutation A → M A
mutate_state id mutate = do
  b ← get_broadcast id
  st ← or_raise b.recipients_state Error.invalid_json
  r ← or_fail (mutate b.status st)
  n ← update_broadcasts (has_id id) (set_state (r.1))
  if n == 0 then raise Error.broadcast_not_found else pure (r.0)

-- updateBroadcastRecipientState: a connection, BEGIN IMMEDIATE, the update, and COMMIT or ROLLBACK
unfoldable pub update_broadcast_recipient_state : {A : Type 0} → ℕ → Mutation A → M A
update_broadcast_recipient_state id mutate =
    query (λ t. tt) >> (query (λ t. tt) >> transaction (mutate_state id mutate))

abbrev pub start_running : Time → Broadcast → Broadcast
start_running now b = record b { status = BroadcastStatus.running; started_at = some now }

-- ClaimBroadcast
unfoldable pub claim_broadcast : ℕ → Time → M Bool
claim_broadcast id now = do
  n ← update_broadcasts (λ b. has_id id b && is_scheduled b.status) (start_running now)
  if n == 0
      then (do
        count ← query (λ t. count_if (has_id id) t.broadcasts)
        if count == 0 then raise Error.broadcast_not_found else pure false)
      else pure (n == 1)

abbrev pub cancel_now : Time → Broadcast → Broadcast
cancel_now now b = record b { status = BroadcastStatus.canceled; finished_at = some now }

-- the transaction of CancelBroadcast
unfoldable pub cancel_body : ℕ → Time → M Bool
cancel_body id now = do
  b ← get_broadcast id
  if is_scheduled b.status || is_running b.status
      then (do n ← update_broadcasts (has_id id) (cancel_now now); pure (n == 1))
      else pure false

-- CancelBroadcast
unfoldable pub cancel_broadcast : ℕ → Time → M Bool
cancel_broadcast id now = transaction (cancel_body id now)

abbrev pub has_ended : BroadcastStatus → Bool
has_ended BroadcastStatus.scheduled = false
has_ended BroadcastStatus.running = false
has_ended _ = true

-- the columns that UpdateBroadcast selects
abbrev pub set_outcome : Broadcast → Broadcast → Broadcast
set_outcome new b = record b {
  status = new.status;
  finished_at = new.finished_at;
  recipients_total = new.recipients_total;
  sent_count = new.sent_count;
  blocked_count = new.blocked_count;
  unreachable_count = new.unreachable_count;
  failed_count = new.failed_count;
  last_error = new.last_error;
  retry_at = new.retry_at;
  retry_count = new.retry_count;
  delivery_report = new.delivery_report;
}

-- UpdateBroadcast
unfoldable pub update_broadcast : Broadcast → M (Unit {0})
update_broadcast b = do
  n ← update_broadcasts (has_id b.id) (set_outcome b)
  if n == 0 then raise Error.broadcast_not_found else pure tt

-- GetRunnableBroadcasts
abbrev pub is_due : Option Time → Time → Bool
is_due none now = true
is_due (some t) now = leb t now

abbrev pub is_runnable : Time → Broadcast → Bool
is_runnable now b =
    (is_scheduled b.status || is_running b.status)
    && (is_due b.retry_at now && is_due b.planned_at now)

unfoldable pub get_runnable_broadcasts : Time → M (List Broadcast)
get_runnable_broadcasts now = query (λ t. select (is_runnable now) t.broadcasts)
