-- ===== src/Service/Reminders.antt =====
-- internal/service/subscription_reminders.go: a reminder is claimed, sent, and released when it
-- could not be sent. The answer of the bot is an argument; the result says whether a reminder was
-- sent, which the source counts in a metric. The text of the message is left out.
pub mod Bits
pub mod Once
use rs8kvn_bot.Common.{
  ℕ, ◌+◌, ◌-◌, ◌*◌, Bool, true, false, not, ◌||◌, Option, none, some, if◌then◌else◌,
}
use rs8kvn_bot.Common.Int.{pos, eqb_ℤ}
use rs8kvn_bot.Database.Models.{Time, minute, Subscription, ReminderWindow, AuditLog}
use rs8kvn_bot.Database.Monad.{M, Error, pure, raise, ◌>>=◌, ◌>>◌, best_effort, insert_audit_log}
use rs8kvn_bot.Database.Trials.{hour}
use rs8kvn_bot.Database.Reminders.{claim_reminder, release_reminder}

abbrev pub window_bit : ReminderWindow → ℕ
window_bit ReminderWindow.three_days = 1
window_bit ReminderWindow.one_day = 2
window_bit ReminderWindow.three_hours = 4

abbrev pub lead_time : ReminderWindow → Time
lead_time ReminderWindow.three_days = 72 * hour
lead_time ReminderWindow.one_day = 24 * hour
lead_time ReminderWindow.three_hours = 3 * hour

-- ReminderWindowBounds
unfoldable pub reminder_window_bounds : ReminderWindow → Time → Time × Time
reminder_window_bounds window now =
    let center = now + lead_time window in (center - 30 * minute, center + 30 * minute)

-- after bot.Send: the audit of a reminder that was sent, or the release of one that was not
abbrev pub deliver : Time → Subscription → ReminderWindow → Bool → M Bool
deliver expires_at sub window true =
    best_effort (insert_audit_log (AuditLog.reminder_sent sub window)) >> pure true
deliver expires_at sub window false =
    best_effort (release_reminder sub.id (window_bit window) expires_at)
    >> raise Error.telegram_error

abbrev pub remind : Option Time → Subscription → ReminderWindow → Bool → M Bool
remind none sub window answer = pure false
remind (some expires_at) sub window answer = do
  claimed ← claim_reminder sub.id (window_bit window) expires_at
  if claimed then deliver expires_at sub window answer else pure false

-- SendExpiryReminder
unfoldable pub send_expiry_reminder : Bool → Option Subscription → ReminderWindow → Bool → M Bool
send_expiry_reminder has_bot none window answer = pure false
send_expiry_reminder has_bot (some sub) window answer =
    if not has_bot || eqb_ℤ sub.telegram_id (pos 0)
    then pure false
    else remind sub.expires_at sub window answer
