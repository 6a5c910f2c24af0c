-- ===== src/Database/Broadcasts/Operations.antt =====
-- What each operation of the broadcast store does to the snapshots in the table.
use rs8kvn_bot.Common.{
  ℕ, suc, ◌≡◌, refl, arith, Bool, some, List, ◌&&◌, ◌||◌, find, update_if, Bool-cases, Option-cases,
  inl, inr, if◌then◌else◌,
}
use rs8kvn_bot.Common.Int.{ℤ}
use rs8kvn_bot.Common.Text.{Text}
use rs8kvn_bot.Database.Models.{Time, Broadcast, RecipientStatus, RecipientState}
use rs8kvn_bot.Database.Monad.{Db, Tables, advance}
use rs8kvn_bot.Database.Broadcasts.{
  has_id, update_broadcast_recipient_state, claim_broadcast, is_scheduled, start_running,
  cancel_now, cancel_body, has_ended, set_outcome, update_broadcast, get_broadcast, is_running,
}
use rs8kvn_bot.Database.Broadcasts.Recipients.{
  take_snapshot, snapshot_broadcast_recipients, change_lease, is_terminal, finish_with,
  finish_broadcast_recipient, may_retry, retry, reopen, run_again, reset_body,
}
use rs8kvn_bot.Database.Broadcasts.Evolves.{AllEvolve-update_if, state_of, TableEvolves}
use rs8kvn_bot.Database.Broadcasts.Mutations.{
  take_snapshot-IsGentle, change_lease-IsGentle, finish-Evolves, retry-Evolves,
}
use rs8kvn_bot.Database.Broadcasts.Runs.{
  after, TableEvolves-same, other_columns, state_updated, update_state-TableEvolves,
}

pub snapshot-TableEvolves :
    (audience : Tables → List ℤ) (id : ℕ) (now : Time) (db : Db)
    → TableEvolves db.tables.broadcasts (after (snapshot_broadcast_recipients audience id now) db)
unfolding snapshot_broadcast_recipients
snapshot-TableEvolves audience id now db = elim (Option-cases (db.faults db.tick)) [
  | inr failed ↦ TableEvolves-same (ground arith)
  | inl works ↦
      let ids = audience db.tables in
      let same : after (snapshot_broadcast_recipients audience id now) db
          ≡ after (update_broadcast_recipient_state id (take_snapshot ids now)) (advance db) =
        ground arith in
      rw same (
        update_state-TableEvolves id (take_snapshot ids now) (take_snapshot-IsGentle ids now)
          (advance db))
]

pub finish-TableEvolves :
    (broadcast_id id attempts : ℕ) (status : RecipientStatus) (last_error : Text) (now : Time)
    (db : Db)
    → TableEvolves db.tables.broadcasts
        (after (finish_broadcast_recipient broadcast_id id attempts status last_error now) db)
unfolding finish_broadcast_recipient
finish-TableEvolves broadcast_id id attempts status last_error now db =
    elim (Bool-cases (is_terminal status)) [
      | inr wrong ↦ TableEvolves-same (ground arith)
      | inl terminal ↦
          let f = finish_with status last_error now in
          let same : after
                (finish_broadcast_recipient broadcast_id id attempts status last_error now) db
              ≡ after (update_broadcast_recipient_state broadcast_id (change_lease id attempts f))
                  db =
            ground arith in
          rw same (
            update_state-TableEvolves broadcast_id (change_lease id attempts f)
              (change_lease-IsGentle id attempts f
                (finish-Evolves status last_error now terminal attempts))
              db)
    ]

pub claim-TableEvolves :
    (id : ℕ) (now : Time) (db : Db)
    → TableEvolves db.tables.broadcasts (after (claim_broadcast id now) db)
unfolding claim_broadcast
claim-TableEvolves id now db = elim (Option-cases (db.faults db.tick)) [
  | inr failed ↦ TableEvolves-same (ground arith)
  | inl works ↦
      let p = λ (b : Broadcast). has_id id b && is_scheduled b.status in
      let same : after (claim_broadcast id now) db
          ≡ update_if p (start_running now) db.tables.broadcasts =
        ground arith in
      rw same (other_columns p (start_running now) db.tables.broadcasts (λ b. refl) (λ b. refl))
]

pub cancel_body-TableEvolves :
    (id : ℕ) (now : Time) (db : Db)
    → TableEvolves db.tables.broadcasts (after (cancel_body id now) db)
unfolding cancel_body get_broadcast
cancel_body-TableEvolves id now db = elim (Option-cases (db.faults db.tick)) [
  | inr failed ↦ TableEvolves-same (ground arith)
  | inl works ↦ elim (Option-cases (find (has_id id) db.tables.broadcasts)) [
    | inl missing ↦ TableEvolves-same (ground arith)
    | inr (b, found) ↦ elim (Bool-cases (is_scheduled b.status || is_running b.status)) [
      | inr over ↦ TableEvolves-same (ground arith)
      | inl live ↦ elim (Option-cases (db.faults (suc db.tick))) [
        | inr failed ↦ TableEvolves-same (ground arith)
        | inl writes ↦
            let bs = db.tables.broadcasts in
            let same : after (cancel_body id now) db ≡ update_if (has_id id) (cancel_now now) bs =
              ground arith in
            rw same (other_columns (has_id id) (cancel_now now) bs (λ b. refl) (λ b. refl))
      ]
    ]
  ]
]

pub reset_written :
    (id : ℕ) (now : Time) (bs : List Broadcast) (ended : Bool) (st : RecipientState)
    → state_of id bs ≡ some st
    → let st' = record st { recipients = update_if may_retry (retry now) st.recipients } in
      TableEvolves bs (update_if (has_id id) (if ended then run_again st' else reopen st') bs)
reset_written id now bs ended st e =
    let st' : RecipientState = record st {
      recipients = update_if may_retry (retry now) st.recipients;
    } in
    state_updated id (if ended then run_again st' else reopen st') bs st st' (λ b. ground arith)
      (λ b. ground arith) e
      (λ t. record {
        taken = t;
        all = AllEvolve-update_if may_retry (retry now) (retry-Evolves now) st.recipients;
      })

pub reset_body-TableEvolves :
    (id : ℕ) (now : Time) (db : Db)
    → TableEvolves db.tables.broadcasts (after (reset_body id now) db)
unfolding reset_body get_broadcast
reset_body-TableEvolves id now db = elim (Option-cases (db.faults db.tick)) [
  | inr failed ↦ TableEvolves-same (ground arith)
  | inl works ↦ elim (Option-cases (find (has_id id) db.tables.broadcasts)) [
    | inl missing ↦ TableEvolves-same (ground arith)
    | inr (b, found) ↦ elim (Option-cases b.recipients_state) [
      | inl broken ↦ TableEvolves-same (ground arith)
      | inr (st, column) ↦ elim (Option-cases (db.faults (suc db.tick))) [
        | inr failed ↦ TableEvolves-same (ground arith)
        | inl writes ↦
            let bs = db.tables.broadcasts in
            let st' : RecipientState = record st {
              recipients = update_if may_retry (retry now) st.recipients;
            } in
            let f = if has_ended b.status then run_again st' else reopen st' in
            let same : after (reset_body id now) db ≡ update_if (has_id id) f bs = ground arith in
            rw same (reset_written id now bs (has_ended b.status) st (ground arith))
      ]
    ]
  ]
]

pub update-TableEvolves :
    (new : Broadcast) (db : Db)
    → TableEvolves db.tables.broadcasts (after (update_broadcast new) db)
unfolding update_broadcast
update-TableEvolves new db = elim (Option-cases (db.faults db.tick)) [
  | inr failed ↦ TableEvolves-same (ground arith)
  | inl works ↦
      let bs = db.tables.broadcasts in
      let same : after (update_broadcast new) db ≡ update_if (has_id new.id) (set_outcome new) bs =
        ground arith in
      rw same (other_columns (has_id new.id) (set_outcome new) bs (λ b. refl) (λ b. refl))
]
