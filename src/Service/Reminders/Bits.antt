-- ===== src/Service/Reminders/Bits.antt =====
-- The bits of the reminders: setting one, and clearing another.
use rs8kvn_bot.Common.{ℕ, ◌≡◌, refl, arith, Bool, true, false}
use rs8kvn_bot.Database.Models.{ReminderWindow}
use rs8kvn_bot.Database.Reminders.{has_bit, set_bit, clear_bit}
use rs8kvn_bot.Service.Reminders.{window_bit}

abbrev pub same_window : ReminderWindow → ReminderWindow → Bool
same_window ReminderWindow.three_days ReminderWindow.three_days = true
same_window ReminderWindow.one_day ReminderWindow.one_day = true
same_window ReminderWindow.three_hours ReminderWindow.three_hours = true
same_window _ _ = false

pub same_window→eq : (a b : ReminderWindow) → same_window a b ≡ true → a ≡ b
same_window→eq ReminderWindow.three_days ReminderWindow.three_days h = refl
same_window→eq ReminderWindow.one_day ReminderWindow.one_day h = refl
same_window→eq ReminderWindow.three_hours ReminderWindow.three_hours h = refl
same_window→eq ReminderWindow.three_days ReminderWindow.one_day h = cc
same_window→eq ReminderWindow.three_days ReminderWindow.three_hours h = cc
same_window→eq ReminderWindow.one_day ReminderWindow.three_days h = cc
same_window→eq ReminderWindow.one_day ReminderWindow.three_hours h = cc
same_window→eq ReminderWindow.three_hours ReminderWindow.three_days h = cc
same_window→eq ReminderWindow.three_hours ReminderWindow.one_day h = cc

-- A set bit stays set when any bit is set, and when another one is cleared.
pub set_keeps :
    (w v : ReminderWindow) (n : ℕ)
    → has_bit (window_bit w) n ≡ true
    → has_bit (window_bit w) (set_bit (window_bit v) n) ≡ true
set_keeps ReminderWindow.three_days ReminderWindow.three_days n h = ground arith
set_keeps ReminderWindow.three_days ReminderWindow.one_day n h = ground arith
set_keeps ReminderWindow.three_days ReminderWindow.three_hours n h = ground arith
set_keeps ReminderWindow.one_day ReminderWindow.three_days n h = ground arith
set_keeps ReminderWindow.one_day ReminderWindow.one_day n h = ground arith
set_keeps ReminderWindow.one_day ReminderWindow.three_hours n h = ground arith
set_keeps ReminderWindow.three_hours ReminderWindow.three_days n h = ground arith
set_keeps ReminderWindow.three_hours ReminderWindow.one_day n h = ground arith
set_keeps ReminderWindow.three_hours ReminderWindow.three_hours n h = ground arith

pub clear_keeps :
    (w v : ReminderWindow) (n : ℕ)
    → same_window w v ≡ false
    → has_bit (window_bit w) n ≡ true
    → has_bit (window_bit w) (clear_bit (window_bit v) n) ≡ true
clear_keeps ReminderWindow.three_days ReminderWindow.three_days n d h = cc
clear_keeps ReminderWindow.three_days ReminderWindow.one_day n d h = ground arith
clear_keeps ReminderWindow.three_days ReminderWindow.three_hours n d h = ground arith
clear_keeps ReminderWindow.one_day ReminderWindow.three_days n d h = ground arith
clear_keeps ReminderWindow.one_day ReminderWindow.one_day n d h = cc
clear_keeps ReminderWindow.one_day ReminderWindow.three_hours n d h = ground arith
clear_keeps ReminderWindow.three_hours ReminderWindow.three_days n d h = ground arith
clear_keeps ReminderWindow.three_hours ReminderWindow.one_day n d h = ground arith
clear_keeps ReminderWindow.three_hours ReminderWindow.three_hours n d h = cc

pub set_sets :
    (w : ReminderWindow) (n : ℕ) → has_bit (window_bit w) (set_bit (window_bit w) n) ≡ true
set_sets ReminderWindow.three_days n = ground arith
set_sets ReminderWindow.one_day n = ground arith
set_sets ReminderWindow.three_hours n = ground arith
