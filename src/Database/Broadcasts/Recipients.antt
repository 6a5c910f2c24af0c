-- ===== src/Database/Broadcasts/Recipients.antt =====
-- The operations on the recipients of a broadcast: snapshot, lease, outcome and retry.
use rs8kvn_bot.Common.{
  ℕ, zero, suc, Bool, true, false, ◌&&◌, ◌||◌, none, some, List, [], ◌∷◌, ltb, ◌==◌, if◌then◌else◌,
  update_if, length,
}
use rs8kvn_bot.Common.Int.{ℤ, pos, negsuc}
use rs8kvn_bot.Common.Text.{Text}
use rs8kvn_bot.Database.Models.{
  Time, Broadcast, BroadcastStatus, Recipient, RecipientStatus, RecipientState,
}
use rs8kvn_bot.Database.Monad.{
  Tables, M, Error, Result, ok, err, pure, raise, or_raise, ◌>>=◌, query, transaction,
}
use rs8kvn_bot.Database.Broadcasts.{
  has_id, is_running, update_broadcasts, get_broadcast, Mutation, update_broadcast_recipient_state,
  has_ended,
}

abbrev pub is_pending : RecipientStatus → Bool
is_pending RecipientStatus.pending = true
is_pending _ = false

abbrev pub is_sending : RecipientStatus → Bool
is_sending RecipientStatus.sending = true
is_sending _ = false

abbrev pub is_failed : RecipientStatus → Bool
is_failed RecipientStatus.failed = true
is_failed _ = false

abbrev pub new_recipient : Time → ℕ → ℤ → Recipient
new_recipient now id telegram_id = record {
  id = id;
  telegram_id = telegram_id;
  status = RecipientStatus.pending;
  attempts = 0;
  last_error = [];
  next_chunk = 0;
  updated_at = now;
}

-- the recipients of an audience, numbered from `i`
abbrev pub number_from : Time → ℕ → List ℤ → List Recipient
number_from now i [] = []
number_from now i (x ∷ xs) = new_recipient now i x ∷ number_from now (suc i) xs

unfoldable pub take_snapshot : List ℤ → Time → Mutation ℕ
take_snapshot ids now status st =
    if st.snapshot
    then ok (length st.recipients, st)
    else ok (
      length (number_from now 1 ids),
      record { snapshot = true; recipients = number_from now 1 ids },
    )

-- SnapshotBroadcastRecipients. `audience` is what the audience query selects; `now` the clock.
unfoldable pub snapshot_broadcast_recipients : (Tables → List ℤ) → ℕ → Time → M ℕ
snapshot_broadcast_recipients audience id now =
    query audience >>= λ ids. update_broadcast_recipient_state id (take_snapshot ids now)

abbrev pub is_stale : Time → Recipient → Bool
is_stale before r = is_sending r.status && ltb r.updated_at before

abbrev pub release_lease : Time → Recipient → Recipient
release_lease now r = record r { status = RecipientStatus.pending; updated_at = now }

unfoldable pub recover_stale : Time → Time → Mutation (Unit {0})
recover_stale before now status st =
    ok
      (tt, record st { recipients = update_if (is_stale before) (release_lease now) st.recipients })

-- RecoverStaleBroadcastRecipients
unfoldable pub recover_stale_broadcast_recipients : ℕ → Time → Time → M (Unit {0})
recover_stale_broadcast_recipients id before now =
    update_broadcast_recipient_state id (recover_stale before now)

abbrev pub lease : Time → Recipient → Recipient
lease now r = record r {
  status = RecipientStatus.sending;
  attempts = suc r.attempts;
  updated_at = now;
}

-- the loop of ClaimBroadcastRecipients with room for so many more: the claimed, and all
unfoldable pub claim_batch : Time → ℕ → List Recipient → List Recipient × List Recipient
claim_batch now zero rs = ([], rs)
claim_batch now (suc room) [] = ([], [])
claim_batch now (suc room) (r ∷ rs) =
    let rest = claim_batch now (if is_pending r.status then room else suc room) rs in
    if is_pending r.status
    then (lease now r ∷ rest.0, lease now r ∷ rest.1)
    else (rest.0, r ∷ rest.1)

-- broadcastRecipientBatch stands for a limit that is not positive.
abbrev pub batch_limit : ℤ → ℕ
batch_limit (pos zero) = 100
batch_limit (pos (suc n)) = suc n
batch_limit (negsuc n) = 100

unfoldable pub claim_pending : Time → ℕ → Mutation (List Recipient)
claim_pending now limit status st =
    if is_running status
    then ok (
      (claim_batch now limit st.recipients).0,
      record st { recipients = (claim_batch now limit st.recipients).1 },
    )
    else ok ([], st)

-- ClaimBroadcastRecipients
unfoldable pub claim_broadcast_recipients : ℕ → Time → ℤ → M (List Recipient)
claim_broadcast_recipients id now limit =
    update_broadcast_recipient_state id (claim_pending now (batch_limit limit))

abbrev pub keep_head : Recipient → Result (List Recipient) → Result (List Recipient)
keep_head r (ok rs) = ok (r ∷ rs)
keep_head r (err e) = err e

-- the guard of a lease: the recipient is being sent to, in that attempt
abbrev pub is_leased : ℕ → Recipient → Bool
is_leased attempts r = is_sending r.status && r.attempts == attempts

-- the loops of FinishBroadcastRecipient and UpdateBroadcastRecipientProgress
unfoldable pub on_lease : ℕ → ℕ → (Recipient → Recipient) → List Recipient → Result (List Recipient)
on_lease id attempts f [] = err Error.recipient_not_found
on_lease id attempts f (r ∷ rs) =
    let rest = on_lease id attempts f rs in
    if r.id == id
    then (if is_leased attempts r then ok (f r ∷ rs) else err Error.recipient_stale)
    else keep_head r rest

abbrev pub with_recipients :
    RecipientState → Result (List Recipient) → Result (Unit {0} × RecipientState)
with_recipients st (ok rs) = ok (tt, record st { recipients = rs })
with_recipients st (err e) = err e

unfoldable pub change_lease : ℕ → ℕ → (Recipient → Recipient) → Mutation (Unit {0})
change_lease id attempts f status st = with_recipients st (on_lease id attempts f st.recipients)

abbrev pub is_terminal : RecipientStatus → Bool
is_terminal RecipientStatus.pending = false
is_terminal RecipientStatus.sending = false
is_terminal _ = true

abbrev pub finish_with : RecipientStatus → Text → Time → Recipient → Recipient
finish_with status last_error now r = record r {
  status = status;
  last_error = last_error;
  updated_at = now;
}

-- FinishBroadcastRecipient
unfoldable pub finish_broadcast_recipient : ℕ → ℕ → ℕ → RecipientStatus → Text → Time → M (Unit {0})
finish_broadcast_recipient broadcast_id id attempts status last_error now =
    if is_terminal status
    then update_broadcast_recipient_state broadcast_id
        (change_lease id attempts (finish_with status last_error now))
    else raise Error.invalid_recipient_status

abbrev pub at_chunk : ℕ → Time → Recipient → Recipient
at_chunk next_chunk now r = record r { next_chunk = next_chunk; updated_at = now }

-- UpdateBroadcastRecipientProgress
unfoldable pub update_broadcast_recipient_progress : ℕ → ℕ → ℕ → ℕ → Time → M (Unit {0})
update_broadcast_recipient_progress broadcast_id id attempts next_chunk now =
    update_broadcast_recipient_state broadcast_id
      (change_lease id attempts (at_chunk next_chunk now))

abbrev pub may_retry : Recipient → Bool
may_retry r = is_failed r.status || is_sending r.status

abbrev pub retry : Time → Recipient → Recipient
retry now r = record r { status = RecipientStatus.pending; updated_at = now; last_error = [] }

-- the columns that a reset writes; a broadcast that has ended runs again
abbrev pub reopen : RecipientState → Broadcast → Broadcast
reopen st b = record b {
  recipients_state = some st;
  last_error = "";
  retry_at = none;
  retry_count = 0;
}

abbrev pub run_again : RecipientState → Broadcast → Broadcast
run_again st b = record (reopen st b) { status = BroadcastStatus.running; finished_at = none }

-- the transaction of ResetBroadcastFailedRecipients
unfoldable pub reset_body : ℕ → Time → M (Unit {0})
reset_body id now = do
  b ← get_broadcast id
  st ← or_raise b.recipients_state Error.invalid_json
  let st' = record st { recipients = update_if may_retry (retry now) st.recipients }
  n ← update_broadcasts (has_id id) (if has_ended b.status then run_again st' else reopen st')
  if n == 0 then raise Error.broadcast_not_found else pure tt

-- ResetBroadcastFailedRecipients
unfoldable pub reset_broadcast_failed_recipients : ℕ → Time → M (Unit {0})
reset_broadcast_failed_recipients id now = transaction (reset_body id now)
