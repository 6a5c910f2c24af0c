-- ===== src/Database/Broadcasts/Stats.antt =====
-- GetBroadcastRecipientsStats.
use rs8kvn_bot.Common.{ℕ, suc, List, [], ◌∷◌, leb, if◌then◌else◌, length, take, ◌++◌}
use rs8kvn_bot.Common.Text.{Text}
use rs8kvn_bot.Database.Models.{Recipient, RecipientStatus, BroadcastDeliveryReport}
use rs8kvn_bot.Database.Monad.{M, Error, pure, or_raise, ◌>>=◌}
use rs8kvn_bot.Database.Broadcasts.{get_broadcast}

-- What GetBroadcastRecipientsStats returns.
pub record Stats : Type 0 where
  pub total : ℕ
  pub sent : ℕ
  pub blocked : ℕ
  pub unreachable : ℕ
  pub failed : ℕ
  pub report : BroadcastDeliveryReport

-- the first 500 code points, and an ellipsis for more
unfoldable pub truncate_database_error : Text → Text
truncate_database_error v = if leb (length v) 500 then v else take 500 v ++ (8230 ∷ [])

-- the switch over the status of a recipient
abbrev pub count_status : RecipientStatus → Recipient → Stats → Stats
count_status RecipientStatus.sent r s =
    let p = s.report in
    record s {
      sent = suc s.sent;
      report = record p { delivered = p.delivered ++ (r.telegram_id ∷ []) };
    }
count_status RecipientStatus.blocked r s =
    let p = s.report in
    record s {
      blocked = suc s.blocked;
      report = record p { blocked = p.blocked ++ (r.telegram_id ∷ []) };
    }
count_status RecipientStatus.unreachable r s =
    let p = s.report in
    record s {
      unreachable = suc s.unreachable;
      report = record p { unreachable = p.unreachable ++ (r.telegram_id ∷ []) };
    }
count_status RecipientStatus.failed r s =
    let p = s.report in
    record s {
      failed = suc s.failed;
      report = record p {
        errors =
            p.errors
            ++ (record { telegram_id = r.telegram_id; error = truncate_database_error r.last_error }
                ∷ []);
      };
    }
count_status RecipientStatus.pending r s =
    let p = s.report in
    record s { report = record p { not_processed = p.not_processed ++ (r.telegram_id ∷ []) } }
count_status RecipientStatus.sending r s =
    let p = s.report in
    record s { report = record p { not_processed = p.not_processed ++ (r.telegram_id ∷ []) } }

unfoldable pub count_recipients : List Recipient → Stats → Stats
count_recipients [] s = s
count_recipients (r ∷ rs) s =
    count_recipients rs (count_status r.status r (record s { total = suc s.total }))

abbrev pub no_stats : Stats
no_stats = record {
  total = 0;
  sent = 0;
  blocked = 0;
  unreachable = 0;
  failed = 0;
  report = record {
    delivered = [];
    blocked = [];
    unreachable = [];
    errors = [];
    not_processed = [];
  };
}

-- GetBroadcastRecipientsStats
unfoldable pub get_broadcast_recipients_stats : ℕ → M Stats
get_broadcast_recipients_stats id = do
  b ← get_broadcast id
  st ← or_raise b.recipients_state Error.invalid_json
  pure (count_recipients st.recipients no_stats)
