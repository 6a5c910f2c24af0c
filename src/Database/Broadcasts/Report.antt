-- ===== src/Database/Broadcasts/Report.antt =====
-- GetBroadcastRecipientsStats: the report accounts for every recipient.
use rs8kvn_bot.Common.{
  ℕ, suc, ◌+◌, ◌≡◌, refl, sym, ap, arith, some, List, [], ◌∷◌, ◌++◌, map, Perm, select, count_if,
  length, find, Option-cases, inl, inr,
}
use mathlib.Core.List.{append_assoc, append-nil}
use rs8kvn_bot.Common.Int.{ℤ}
use rs8kvn_bot.Database.Models.{
  Recipient, RecipientStatus, RecipientState, BroadcastSendError, BroadcastDeliveryReport,
}
use rs8kvn_bot.Database.Monad.{Db, ok}
use rs8kvn_bot.Database.Broadcasts.{has_id, get_broadcast}
use rs8kvn_bot.Database.Broadcasts.Stats.{
  Stats, count_status, count_recipients, no_stats, get_broadcast_recipients_stats,
}
use rs8kvn_bot.Database.Broadcasts.Evolves.{state_of}
use rs8kvn_bot.Database.Broadcasts.Outcomes.{
  is_sent, is_blocked, is_unreachable, has_failed, is_open, user, send_error, by_outcome,
  by_outcome-Perm, error_users, counts_add_up,
}

-- What a report says of these recipients, after what it said before.
pub record Accounts (rs : List Recipient) (s t : Stats) : Type 0 where
  pub total : t.total ≡ s.total + length rs
  pub sent : t.sent ≡ s.sent + count_if is_sent rs
  pub blocked : t.blocked ≡ s.blocked + count_if is_blocked rs
  pub unreachable : t.unreachable ≡ s.unreachable + count_if is_unreachable rs
  pub failed : t.failed ≡ s.failed + count_if has_failed rs
  pub delivered_users : t.report.delivered ≡ s.report.delivered ++ map user (select is_sent rs)
  pub blocked_users : t.report.blocked ≡ s.report.blocked ++ map user (select is_blocked rs)
  pub unreachable_users :
      t.report.unreachable ≡ s.report.unreachable ++ map user (select is_unreachable rs)
  pub errors : t.report.errors ≡ s.report.errors ++ map send_error (select has_failed rs)
  pub open_users : t.report.not_processed ≡ s.report.not_processed ++ map user (select is_open rs)

appended {ℓ} : {A : Type ℓ} (xs ys : List A) (y : A) → (xs ++ (y ∷ [])) ++ ys ≡ xs ++ (y ∷ ys)
appended xs ys y = append_assoc xs (y ∷ []) ys

one_more :
    (status : RecipientStatus) (r : Recipient) (rs : List Recipient) (s t : Stats)
    → r.status ≡ status
    → Accounts rs (count_status status r (record s { total = suc s.total })) t
    → Accounts (r ∷ rs) s t
one_more status r rs s t e ih = record {
  total = ground (arith, ih.total);
  sent = ground (arith, ih.sent);
  blocked = ground (arith, ih.blocked);
  unreachable = ground (arith, ih.unreachable);
  failed = ground (arith, ih.failed);
  delivered_users = ground (
    arith,
    ih.delivered_users,
    appended s.report.delivered (map user (select is_sent rs)) r.telegram_id,
  );
  blocked_users = ground (
    arith,
    ih.blocked_users,
    appended s.report.blocked (map user (select is_blocked rs)) r.telegram_id,
  );
  unreachable_users = ground (
    arith,
    ih.unreachable_users,
    appended s.report.unreachable (map user (select is_unreachable rs)) r.telegram_id,
  );
  errors = ground (
    arith,
    ih.errors,
    appended s.report.errors (map send_error (select has_failed rs)) (send_error r),
  );
  open_users = ground (
    arith,
    ih.open_users,
    appended s.report.not_processed (map user (select is_open rs)) r.telegram_id,
  );
}

count_recipients-Accounts :
    (rs : List Recipient) (s : Stats) → Accounts rs s (count_recipients rs s)
unfolding count_recipients
count_recipients-Accounts [] s = record {
  total = omega arith;
  sent = omega arith;
  blocked = omega arith;
  unreachable = omega arith;
  failed = omega arith;
  delivered_users = sym (append-nil s.report.delivered);
  blocked_users = sym (append-nil s.report.blocked);
  unreachable_users = sym (append-nil s.report.unreachable);
  errors = sym (append-nil s.report.errors);
  open_users = sym (append-nil s.report.not_processed);
}
count_recipients-Accounts (r ∷ rs) s =
    let s' = count_status r.status r (record s { total = suc s.total }) in
    one_more r.status r rs s (count_recipients rs s') refl (count_recipients-Accounts rs s')

-- the users that a report names
abbrev pub named : BroadcastDeliveryReport → List ℤ
named p =
    p.delivered
    ++ (p.blocked
        ++ (p.unreachable
            ++ (map (λ (e : BroadcastSendError). e.telegram_id) p.errors ++ p.not_processed)))

-- Statistics that are returned describe the recipients in the table: the counters are the numbers
-- of recipients in each status and the lists their users in the order of the snapshot, errors with
-- the shortened texts; with the users not processed yet the counters add up to the total; and the
-- users that the report names are those of the snapshot, each as often as there.
pub stats_account :
    (id : ℕ) (db : Db) (t : Stats)
    → (get_broadcast_recipients_stats id db).0 ≡ ok t
    → (st : RecipientState) × (state_of id db.tables.broadcasts ≡ some st)
      × Accounts st.recipients no_stats t
      × (t.total ≡ t.sent + t.blocked + t.unreachable + t.failed + length t.report.not_processed)
      × Perm (map user st.recipients) (named t.report)
unfolding get_broadcast_recipients_stats get_broadcast
stats_account id db t h = elim (Option-cases (find (has_id id) db.tables.broadcasts)) [
  | inl missing ↦ absurd (ground arith)
  | inr (b, found) ↦ elim (Option-cases b.recipients_state) [
    | inl broken ↦ absurd (ground arith)
    | inr (st, column) ↦
        let rs = st.recipients in
        let same : count_recipients rs no_stats ≡ t = ground arith in
        let a : Accounts rs no_stats t = rw (sym same) (count_recipients-Accounts rs no_stats) in
        let sum : t.total
            ≡ t.sent + t.blocked + t.unreachable + t.failed + length t.report.not_processed =
          omega (
            arith,
            a.total,
            a.sent,
            a.blocked,
            a.unreachable,
            a.failed,
            counts_add_up rs,
            ap (length {A = ℤ}) a.open_users,
          ) in
        let names : named t.report ≡ by_outcome rs = cc (
          a.delivered_users,
          a.blocked_users,
          a.unreachable_users,
          a.errors,
          a.open_users,
          error_users (select has_failed rs),
        ) in
        (st, ground arith, a, sum, rw names (by_outcome-Perm rs))
  ]
]
