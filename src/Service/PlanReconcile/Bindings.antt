-- ===== src/Service/PlanReconcile/Bindings.antt =====
-- What each loop of the reconciliation does to one binding, and when it leaves it alone.
use rs8kvn_bot.Common.{
  ℕ, Bool, true, false, not, ◌&&◌, ◌||◌, Option, none, some, List, [], ◌∷◌, ◌≡◌, refl, arith, ◌==◌,
  ==→eq, if◌then◌else◌, any_of, Bool-cases, inl, inr,
}
use rs8kvn_bot.Database.Models.{SubscriptionNode, SyncStatus}
use rs8kvn_bot.Database.SubscriptionNodes.{has_key, set_status, same_sync}
use rs8kvn_bot.Database.SubscriptionNodes.Lookup.{binding, map_row, or_fresh}
use rs8kvn_bot.Service.PlanReconcile.{in_target, has_entry}
use rs8kvn_bot.Service.PlanReconcile.Effects.{is_held}

-- the nodes of the target that have no binding, or one that is to be removed
abbrev pub needs : List SubscriptionNode → ℕ → Bool
needs current n = not (
    has_entry SyncStatus.active n current
    || (has_entry SyncStatus.pending_add n current
        || has_entry SyncStatus.pending_update n current))

abbrev pub added :
    ℕ → List SubscriptionNode → Bool → ℕ → Option SubscriptionNode → Option SubscriptionNode
added s current target n b = if target && needs current n then or_fresh s n b else b

pub or_fresh-found :
    (s n : ℕ) (rows : List SubscriptionNode)
    → any_of (has_key s n) rows ≡ true
    → map_row (set_status SyncStatus.pending_add) (binding s n rows)
      ≡ or_fresh s n (binding s n rows)
or_fresh-found s n [] h = cc
or_fresh-found s n (r ∷ rows) h = ground (arith, or_fresh-found s n rows)

pub not_needed :
    (s : ℕ) (current : List SubscriptionNode) (node n : ℕ) (b : Option SubscriptionNode)
    → needs current node ≡ false
    → b ≡ added s current (node == n) n b
not_needed s current node n b h = elim (Bool-cases (node == n)) [
  | inl same ↦ rw (same, ← ==→eq node n same, h) refl
  | inr other ↦ rw other refl
]

pub needed :
    (s : ℕ) (current : List SubscriptionNode) (node n : ℕ) (b : Option SubscriptionNode)
    → needs current node ≡ true
    → (if node == n then or_fresh s n b else b) ≡ added s current (node == n) n b
needed s current node n b h = elim (Bool-cases (node == n)) [
  | inl same ↦ rw (same, ← ==→eq node n same, h) refl
  | inr other ↦ rw other refl
]

pub added_twice :
    (s : ℕ) (current : List SubscriptionNode) (p q : Bool) (n : ℕ) (b : Option SubscriptionNode)
    → added s current q n (added s current p n b) ≡ added s current (p || q) n b
added_twice s current true q n none = ground arith
added_twice s current true q n (some r) = ground arith
added_twice s current false q n b = refl

-- the nodes of a list that are not of the target
abbrev pub removed : List ℕ → Bool → ℕ → Option SubscriptionNode → Option SubscriptionNode
removed targets listed n b =
    if listed && not (in_target targets n)
    then map_row (set_status SyncStatus.pending_remove) b
    else b

pub removed_twice :
    (targets : List ℕ) (p q : Bool) (n : ℕ) (b : Option SubscriptionNode)
    → removed targets q n (removed targets p n b) ≡ removed targets (p || q) n b
removed_twice targets true q n none = ground arith
removed_twice targets true q n (some r) = ground arith
removed_twice targets false q n b = refl

pub not_removed :
    (targets : List ℕ) (node n : ℕ) (b : Option SubscriptionNode)
    → in_target targets node ≡ true
    → b ≡ removed targets (node == n) n b
not_removed targets node n b h = elim (Bool-cases (node == n)) [
  | inl same ↦ rw (same, ← ==→eq node n same, h) refl
  | inr other ↦ rw other refl
]

pub removed_now :
    (targets : List ℕ) (node n : ℕ) (b : Option SubscriptionNode)
    → in_target targets node ≡ false
    → (if node == n then map_row (set_status SyncStatus.pending_remove) b else b)
      ≡ removed targets (node == n) n b
removed_now targets node n b h = elim (Bool-cases (node == n)) [
  | inl same ↦ rw (same, ← ==→eq node n same, h) refl
  | inr other ↦ rw other refl
]

pub mine_of :
    (s : ℕ) (rows : List SubscriptionNode) (row : SubscriptionNode)
    → is_held s rows row ≡ true
    → row.subscription_id ≡ s
mine_of s rows row h = ==→eq row.subscription_id s (ground arith)

pub kept_of :
    (s : ℕ) (rows : List SubscriptionNode) (row : SubscriptionNode)
    → is_held s rows row ≡ true
    → any_of (has_key s row.node_id) rows ≡ true
kept_of s rows row h = ground arith

abbrev pub is_entry : SyncStatus → ℕ → SubscriptionNode → Bool
is_entry st n r = same_sync r.status st && r.node_id == n

pub entry_held :
    (s node : ℕ) (rows : List SubscriptionNode) (row : SubscriptionNode)
    → is_held s rows row ≡ true
    → is_entry SyncStatus.pending_remove node row ≡ true
    → (row.subscription_id ≡ s) × (row.node_id ≡ node) × (any_of (has_key s node) rows ≡ true)
entry_held s node rows row h k = (
  ==→eq row.subscription_id s (ground arith),
  ==→eq row.node_id node (ground arith),
  rw (← ==→eq row.node_id node (ground arith)) (ground arith),
)
