-- ===== src/Scenarios/Locks.antt =====
-- Two callbacks of one payment at its lock.
use rs8kvn_bot.Common.{ℕ, ◌+◌, ◌-◌, ◌≤◌, ◌≡◌, ◌↔◌, none, some, [], ◌∷◌, arith, count_if}
use rs8kvn_bot.Service.Locks.{
  Locks, idle, waiting, holding, System, Reach, started, later, pick, spawn, enter, acquire, start,
  register, entry, set_lock,
}
use rs8kvn_bot.Service.Locks.Safety.{holds_payment, uses_payment, payment_exclusion}

-- both callbacks of payment 7 have entered lockPayment
abbrev entered : Locks
entered = (register 7 (register 7 start.locks).1).1

-- the first one holds the lock, the second one waits
abbrev contended : System
contended = record {
  locks = set_lock 0 (record (entered.heap 0) { tokens = (entered.heap 0).tokens - 1 }) entered;
  goroutines = holding 7 0 ∷ waiting 7 0 ∷ [];
}

contended-Reach : Reach contended
unfolding register entry
contended-Reach =
    later
      (later (later (later (later started spawn) spawn) (pick [] (idle ∷ []) (enter 7)))
        (pick (waiting 7 0 ∷ []) [] (enter 7)))
      (pick [] (waiting 7 0 ∷ []) (acquire (omega arith)))

payment_exclusion_example :
    (count_if (holds_payment 7) contended.goroutines ≤ 1)
    × ((l : ℕ)
        → contended.locks.entries 7 ≡ some l
        → (contended.locks.heap l).tokens + count_if (holds_payment 7) contended.goroutines ≡ 1)
    × ((contended.locks.entries 7 ≡ none) ↔ (count_if (uses_payment 7) contended.goroutines ≡ 0))
payment_exclusion_example = payment_exclusion contended-Reach 7
