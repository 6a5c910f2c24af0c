-- ===== src/Service/Locks/Invariant.antt =====
-- The payment locks: what the goroutines, the counts and the tokens have to do with each other.
use rs8kvn_bot.Common.{ℕ, ◌+◌, ◌<◌, ◌≡◌, Bool, false, some, List, ◌==◌, count_if, All}
use rs8kvn_bot.Service.Locks.{Locks, Pc, idle, waiting, holding, leaving}

-- the goroutine refers to the lock
abbrev pub refers : ℕ → Pc → Bool
refers l idle = false
refers l (waiting _ a) = a == l
refers l (holding _ a) = a == l
refers l (leaving _ a) = a == l

abbrev pub holds : ℕ → Pc → Bool
holds l (holding _ a) = a == l
holds l _ = false

-- The lock of a goroutine is the one in the map.
abbrev pub IsEntered : Locks → Pc → Type 0
IsEntered m idle = Unit
IsEntered m (waiting id l) = m.entries id ≡ some l
IsEntered m (holding id l) = m.entries id ≡ some l
IsEntered m (leaving id l) = m.entries id ≡ some l

pub record Inv (m : Locks) (ps : List Pc) : Type 0 where
  pub counted : (l : ℕ) → l < m.next → count_if (refers l) ps ≡ (m.heap l).waiters
  pub one_token : (l : ℕ) → l < m.next → (m.heap l).tokens + count_if (holds l) ps ≡ 1
  pub entered : All (IsEntered m) ps
  pub live : (id l : ℕ) → m.entries id ≡ some l → (l < m.next) × (0 < (m.heap l).waiters)
  pub own : (a b l : ℕ) → m.entries a ≡ some l → m.entries b ≡ some l → a ≡ b
