-- ===== src/Scenarios/Reminding.antt =====
-- Two ticks of the reminder worker for alice.
use rs8kvn_bot.Common.{true, false, some, ◌≢◌, refl}
use rs8kvn_bot.Database.Models.{ReminderWindow}
use rs8kvn_bot.Database.Monad.{Db, ok, err, Error}
use rs8kvn_bot.Database.Reminders.{claim_reminder}
use rs8kvn_bot.Service.Reminders.{send_expiry_reminder}
use rs8kvn_bot.Service.Reminders.Once.{here, next, send_expiry_reminder_once}
use rs8kvn_bot.Scenarios.{shop, alice}

-- alice has had the reminder of one day; that of three hours is sent
abbrev reminded : Db
reminded = (send_expiry_reminder true (some alice) ReminderWindow.three_hours true shop).1

-- and that of three days fails, which frees its own bit
abbrev missed : Db
missed = (send_expiry_reminder true (some alice) ReminderWindow.three_days false reminded).1

send_expiry_reminder_once_example :
    ((send_expiry_reminder true (some alice) ReminderWindow.three_hours true missed).0 ≢ ok true)
    × ((send_expiry_reminder true (some alice) ReminderWindow.three_hours true missed).0
        ≢ err Error.telegram_error)
unfolding send_expiry_reminder claim_reminder
send_expiry_reminder_once_example =
    send_expiry_reminder_once true alice ReminderWindow.three_hours true shop 1000 refl refl
      (next true (some alice) ReminderWindow.three_days false reminded here refl) missed refl true
      alice true refl refl
