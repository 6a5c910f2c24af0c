-- ===== src/Database/Broadcasts/Batches.antt =====
-- ClaimBroadcastRecipients: which recipients a worker gets.
use rs8kvn_bot.Common.{
  ℕ, ◌+◌, ◌≤◌, ◌≡◌, ◌⊎◌, Bool, true, some, List, [], ◌∷◌, map, take, select, count_if, length, find,
  update_if, if◌then◌else◌,
}
use rs8kvn_bot.Database.Models.{Time, Broadcast, Recipient, RecipientState}
use rs8kvn_bot.Database.Broadcasts.{has_id, set_state, is_running}
use rs8kvn_bot.Database.Broadcasts.Recipients.{is_pending, lease}

abbrev pub waits : Recipient → Bool
waits r = is_pending r.status

-- Recipient by recipient: unchanged, or pending before and leased now.
abbrev pub AllLeased : Time → List Recipient → List Recipient → Type 0
AllLeased now [] [] = Unit
AllLeased now [] (y ∷ ys) = ⊥
AllLeased now (x ∷ xs) [] = ⊥
AllLeased now (x ∷ xs) (y ∷ ys) =
    ((y ≡ x) ⊎ ((waits x ≡ true) × (y ≡ lease now x))) × AllLeased now xs ys

-- What a claim finds and leaves.
pub record Claimed (id : ℕ) (now : Time) (limit : ℕ) (bs bs' : List Broadcast)
    (claimed : List Recipient) : Type 0 where
  pub row : Broadcast
  pub old : RecipientState
  pub new : RecipientState
  pub found : find (has_id id) bs ≡ some row
  pub column : row.recipients_state ≡ some old
  pub written : bs' ≡ update_if (has_id id) (set_state new) bs
  pub same_snapshot : new.snapshot ≡ old.snapshot
  -- the first pending ones in order, each with a new lease, and none unless the broadcast runs
  pub first : claimed ≡ (
      if is_running row.status
      then map (lease now) (take limit (select waits old.recipients))
      else [])
  pub leased : AllLeased now old.recipients new.recipients
  pub counted : length claimed + count_if waits new.recipients ≡ count_if waits old.recipients
  pub few : length claimed ≤ limit
  pub full :
      is_running row.status ≡ true → (length claimed ≡ limit) ⊎ (count_if waits new.recipients ≡ 0)
