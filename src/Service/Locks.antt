-- ===== src/Service/Locks.antt =====
-- internal/service/order.go, lockPayment and dropPaymentWaiter: one lock for each payment id, shared
-- by the goroutines that serve callbacks of that payment. A goroutine is where it stands in
-- lockPayment or in the unlock function that lockPayment returned; one step runs it up to the next
-- point at which another may come between. lockSubscription of sync.go is the same algorithm.
pub mod Invariant
pub mod Counting
pub mod Steps
pub mod Safety
use rs8kvn_bot.Common.{
  ℕ, suc, ◌+◌, ◌-◌, ◌<◌, ◌≡◌, Option, none, some, List, [], ◌∷◌, ◌++◌, ◌==◌, if◌then◌else◌,
}

-- paymentLock: how many tokens lie in the channel, of capacity one, and how many hold or wait.
pub record PaymentLock : Type 0 where
  pub tokens : ℕ
  pub waiters : ℕ

-- paymentLocks: the map, from a payment id (a number here) to the address of its lock.
pub record Locks : Type 0 where
  pub entries : ℕ → Option ℕ
  pub heap : ℕ → PaymentLock
  pub next : ℕ

abbrev pub set {ℓ} : {A : Type ℓ} → ℕ → A → (ℕ → A) → ℕ → A
set k a f j = if j == k then a else f j

-- the lock of a payment, with its initial token, made on first use
unfoldable pub entry : ℕ → Locks → ℕ × Locks
entry id m = elim (m.entries id) [
  | some l ↦ (l, m)
  | none ↦ (
    m.next,
    record {
      entries = set id (some m.next) m.entries;
      heap = set m.next (record { tokens = 1; waiters = 0 }) m.heap;
      next = suc m.next;
    },
  )
]

abbrev pub set_lock : ℕ → PaymentLock → Locks → Locks
set_lock l p m = record m { heap = set l p m.heap }

abbrev pub count_waiter : PaymentLock → PaymentLock
count_waiter p = record p { waiters = suc p.waiters }

-- lockPayment, under the mutex
unfoldable pub register : ℕ → Locks → ℕ × Locks
register id m = let (l, m') = entry id m in (l, set_lock l (count_waiter (m'.heap l)) m')

-- dropPaymentWaiter
unfoldable pub drop_payment_waiter : ℕ → ℕ → Locks → Locks
drop_payment_waiter l id m =
    let p = m.heap l in
    let counted = set_lock l (record p { waiters = p.waiters - 1 }) m in
    if p.waiters == 1 then record counted { entries = set id none m.entries } else counted

-- Where a goroutine stands; with the payment id, and the lock that it found for it.
pub data Pc : Type 0 where
  idle : Pc
  waiting holding leaving : ℕ → ℕ → Pc

-- A step of one goroutine: lockPayment up to the select, the select by the token or by the
-- deadline, the unlock function up to the send on the channel, and dropPaymentWaiter.
pub data Move : Locks → Pc → Locks → Pc → Type 0 where
  enter : {m : Locks} (id : ℕ) → Move m idle (register id m).1 (waiting id (register id m).0)
  acquire :
      {m : Locks} {id l : ℕ}
      → 0 < (m.heap l).tokens
      → Move m
          (waiting id l)
          (set_lock l (record (m.heap l) { tokens = (m.heap l).tokens - 1 }) m)
          (holding id l)
  time_out : {m : Locks} {id l : ℕ} → Move m (waiting id l) m (leaving id l)
  release :
      {m : Locks} {id l : ℕ}
      → (m.heap l).tokens < 1
      → Move m
          (holding id l)
          (set_lock l (record (m.heap l) { tokens = (m.heap l).tokens + 1 }) m)
          (leaving id l)
  leave : {m : Locks} {id l : ℕ} → Move m (leaving id l) (drop_payment_waiter l id m) idle

pub record System : Type 0 where
  pub locks : Locks
  pub goroutines : List Pc

-- Any goroutine takes the next step, and a callback may start a new one.
pub data Step : System → System → Type 0 where
  pick :
      {m m' : Locks} {p p' : Pc} (before after : List Pc)
      → Move m p m' p'
      → Step
          (record { locks = m; goroutines = before ++ (p ∷ after) })
          (record { locks = m'; goroutines = before ++ (p' ∷ after) })
  spawn :
      {m : Locks} {ps : List Pc}
      → Step (record { locks = m; goroutines = ps }) (record { locks = m; goroutines = idle ∷ ps })

abbrev pub start : System
start = record {
  locks = record { entries = λ _. none; heap = λ _. record { tokens = 0; waiters = 0 }; next = 0 };
  goroutines = [];
}

pub data Reach : System → Type 0 where
  started : Reach start
  later : {s t : System} → Reach s → Step s t → Reach t
