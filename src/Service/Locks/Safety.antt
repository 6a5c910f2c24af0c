-- ===== src/Service/Locks/Safety.antt =====
-- The payment locks: mutual exclusion, and that no entry is left behind.
use rs8kvn_bot.Common.{
  ℕ, ◌+◌, ◌≤◌, ◌≡◌, ◌↔◌, refl, arith, Bool, false, none, some, List, [], ◌∷◌, ◌==◌, count_if, All,
  Option-cases, inl, inr,
}
use rs8kvn_bot.Service.Locks.{Locks, Pc, idle, waiting, holding, leaving, System, Reach}
use rs8kvn_bot.Service.Locks.Invariant.{refers, holds, IsEntered}
use rs8kvn_bot.Service.Locks.Steps.{Reach-Inv}

-- the goroutine holds the lock of the payment
abbrev pub holds_payment : ℕ → Pc → Bool
holds_payment id (holding a _) = a == id
holds_payment id _ = false

-- the goroutine is in lockPayment or before the end of its unlock function, for the payment
abbrev pub uses_payment : ℕ → Pc → Bool
uses_payment id idle = false
uses_payment id (waiting a _) = a == id
uses_payment id (holding a _) = a == id
uses_payment id (leaving a _) = a == id

module _ (m : Locks) (id : ℕ) where
  holders_of_entry :
      (l : ℕ)
      → m.entries id ≡ some l
      → ((a b l : ℕ) → m.entries a ≡ some l → m.entries b ≡ some l → a ≡ b)
      → (ps : List Pc) → All (IsEntered m) ps
      → count_if (holds_payment id) ps ≡ count_if (holds l) ps
  holders_of_entry l e own [] h = refl
  holders_of_entry l e own (idle ∷ ps) h = ground (arith, holders_of_entry l e own ps h.1)
  holders_of_entry l e own (waiting a b ∷ ps) h = ground (arith, holders_of_entry l e own ps h.1)
  holders_of_entry l e own (leaving a b ∷ ps) h = ground (arith, holders_of_entry l e own ps h.1)
  holders_of_entry l e own (holding a b ∷ ps) h =
      ground (arith, own a id l, holders_of_entry l e own ps h.1)

  users_of_entry :
      (l : ℕ)
      → m.entries id ≡ some l
      → ((a b l : ℕ) → m.entries a ≡ some l → m.entries b ≡ some l → a ≡ b)
      → (ps : List Pc) → All (IsEntered m) ps
      → count_if (uses_payment id) ps ≡ count_if (refers l) ps
  users_of_entry l e own [] h = refl
  users_of_entry l e own (idle ∷ ps) h = ground (arith, users_of_entry l e own ps h.1)
  users_of_entry l e own (waiting a b ∷ ps) h =
      ground (arith, own a id l, users_of_entry l e own ps h.1)
  users_of_entry l e own (leaving a b ∷ ps) h =
      ground (arith, own a id l, users_of_entry l e own ps h.1)
  users_of_entry l e own (holding a b ∷ ps) h =
      ground (arith, own a id l, users_of_entry l e own ps h.1)

  no_users :
      m.entries id ≡ none
      → (ps : List Pc) → All (IsEntered m) ps
      → (count_if (uses_payment id) ps ≡ 0) × (count_if (holds_payment id) ps ≡ 0)
  no_users e [] h = (refl, refl)
  no_users e (idle ∷ ps) h = ground (arith, no_users e ps h.1)
  no_users e (waiting a b ∷ ps) h = ground (arith, no_users e ps h.1)
  no_users e (leaving a b ∷ ps) h = ground (arith, no_users e ps h.1)
  no_users e (holding a b ∷ ps) h = ground (arith, no_users e ps h.1)

-- In every reachable state a payment has an entry in the map exactly when some goroutine holds its
-- lock, waits for it, or is about to leave it.
entry_reclaimed :
    {s : System}
    → Reach s
    → (id : ℕ) → (s.locks.entries id ≡ none) ↔ (count_if (uses_payment id) s.goroutines ≡ 0)
entry_reclaimed {s} r id =
    let inv = Reach-Inv r in
    (
      λ e. (no_users s.locks id e s.goroutines inv.entered).0,
      λ unused. elim (Option-cases (s.locks.entries id)) [
        | inl missing ↦ missing
        | inr (l, e) ↦
            let same = users_of_entry s.locks id l e inv.own s.goroutines inv.entered in
            let (old, positive) = inv.live id l e in absurd (omega (arith, inv.counted l old))
      ],
    )

-- In every reachable state at most one goroutine holds the lock of a payment; and while anybody
-- uses that lock, its channel has a token exactly when nobody holds it, so neither the next waiter
-- nor the holder that returns the token is blocked for good; and the payment has an entry in the
-- map exactly when some goroutine holds its lock, waits for it, or is about to leave it.
pub payment_exclusion :
    {s : System}
    → Reach s
    → (id : ℕ)
    → (count_if (holds_payment id) s.goroutines ≤ 1)
      × ((l : ℕ)
          → s.locks.entries id ≡ some l
          → (s.locks.heap l).tokens + count_if (holds_payment id) s.goroutines ≡ 1)
      × ((s.locks.entries id ≡ none) ↔ (count_if (uses_payment id) s.goroutines ≡ 0))
payment_exclusion {s} r id =
    let inv = Reach-Inv r in
    let token : (l : ℕ)
        → s.locks.entries id ≡ some l
        → (s.locks.heap l).tokens + count_if (holds_payment id) s.goroutines ≡ 1 =
      λ l e.
        let same = holders_of_entry s.locks id l e inv.own s.goroutines inv.entered in
        ground (arith, inv.one_token l (inv.live id l e).0) in
    (
      elim (Option-cases (s.locks.entries id)) [
        | inl missing ↦ omega (arith, (no_users s.locks id missing s.goroutines inv.entered).1)
        | inr (l, e) ↦ omega (arith, token l e)
      ],
      token,
      entry_reclaimed r id,
    )
