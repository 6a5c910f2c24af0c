-- ===== src/Database/SubscriptionNodes/Lookup.antt =====
-- The binding of a subscription to a node after each write.
use rs8kvn_bot.Common.{
  ℕ, Bool, true, false, ◌&&◌, Option, none, some, List, [], ◌∷◌, ◌++◌, ◌≡◌, ◌≢◌, refl, arith, ap,
  ◌∙◌, find-pass, ◌==◌, ==→eq, if◌then◌else◌, find, update_if, any_of, Bool-cases, inl, inr,
}
use rs8kvn_bot.Database.Models.{SubscriptionNode, SyncStatus}
use rs8kvn_bot.Database.SubscriptionNodes.{
  has_key, set_status, merge_row, upsert_row, is_active_target, same_sync,
}

-- the row of a subscription and a node
abbrev pub binding : ℕ → ℕ → List SubscriptionNode → Option SubscriptionNode
binding s n rows = find (has_key s n) rows

abbrev pub map_row :
    (SubscriptionNode → SubscriptionNode) → Option SubscriptionNode → Option SubscriptionNode
map_row f none = none
map_row f (some r) = some (f r)

pub binding-set_status :
    (s n s' n' : ℕ) (st : SyncStatus) (rows : List SubscriptionNode)
    → binding s n (update_if (has_key s' n') (set_status st) rows) ≡ (
        if s' == s && n' == n then map_row (set_status st) (binding s n rows) else binding s n rows)
binding-set_status s n s' n' st [] = ground arith
binding-set_status s n s' n' st (r ∷ rows) = ground (arith, binding-set_status s n s' n' st rows)

-- a pending_add row, as the reconciliation inserts it
abbrev pub fresh_row : ℕ → ℕ → SubscriptionNode
fresh_row s n = record {
  subscription_id = s;
  node_id = n;
  status = SyncStatus.pending_add;
  retry_count = 0;
  retry_at = none;
  last_error = none;
}

binding-none :
    (s n : ℕ) (rows : List SubscriptionNode)
    → any_of (has_key s n) rows ≡ false
    → binding s n rows ≡ none
binding-none s n [] h = refl
binding-none s n (r ∷ rows) h = ground (arith, binding-none s n rows)

abbrev pub or_fresh : ℕ → ℕ → Option SubscriptionNode → Option SubscriptionNode
or_fresh s n none = some (fresh_row s n)
or_fresh s n (some r) = some (set_status SyncStatus.pending_add r)

binding-update :
    (s n s' n' : ℕ) (rows : List SubscriptionNode)
    → binding s n (update_if (has_key s' n') (merge_row (fresh_row s' n')) rows) ≡ (
        if s' == s && n' == n
        then map_row (set_status SyncStatus.pending_add) (binding s n rows)
        else binding s n rows)
binding-update s n s' n' [] = ground arith
binding-update s n s' n' (r ∷ rows) = ground (arith, binding-update s n s' n' rows)

binding-append :
    (s n s' n' : ℕ) (rows : List SubscriptionNode)
    → any_of (has_key s' n') rows ≡ false
    → binding s n (rows ++ fresh_row s' n' ∷ [])
      ≡ (if s' == s && n' == n then some (fresh_row s n) else binding s n rows)
binding-append s n s' n' [] h = ground arith
binding-append s n s' n' (r ∷ rows) h = ground (arith, binding-append s n s' n' rows)

binding-any :
    (s n : ℕ) (rows : List SubscriptionNode)
    → any_of (has_key s n) rows ≡ true
    → binding s n rows ≢ none
binding-any s n [] h = cc
binding-any s n (r ∷ rows) h = ground (arith, binding-any s n rows)

pub binding-upsert :
    (s n s' n' : ℕ) (rows : List SubscriptionNode)
    → binding s n (upsert_row (fresh_row s' n') rows)
      ≡ (if s' == s && n' == n then or_fresh s n (binding s n rows) else binding s n rows)
binding-upsert s n s' n' rows = elim (Bool-cases (any_of (has_key s' n') rows)) [
  | inl old ↦ ground (arith, binding-update s n s' n' rows, binding-any s' n' rows old)
  | inr new ↦ ground (arith, binding-append s n s' n' rows new, binding-none s' n' rows new)
]

-- A test of membership reads the number only.
any_of-eq :
    (a b : ℕ) (targets : List ℕ)
    → (a == b) ≡ true
    → any_of (λ m. m == a) targets ≡ any_of (λ m. m == b) targets
any_of-eq a b targets e = ap (λ k. any_of (λ m. m == k) targets) (==→eq a b e)

-- The mark step turns the active bindings of the targets to pending_update.
abbrev pub marked : Bool → SubscriptionNode → SubscriptionNode
marked target r =
    if target && same_sync r.status SyncStatus.active
    then set_status SyncStatus.pending_update r
    else r

find-update_if :
    (q p : SubscriptionNode → Bool) (f : SubscriptionNode → SubscriptionNode)
    (rows : List SubscriptionNode)
    → ((r : SubscriptionNode) → q (f r) ≡ q r)
    → find q (update_if p f rows) ≡ map_row (λ r. if p r then f r else r) (find q rows)
find-update_if q p f [] keep = refl
find-update_if q p f (r ∷ rows) keep = ground (arith, keep r, find-update_if q p f rows keep)

-- on the row of the key, the condition of the mark step reads the key
mark_row :
    (s n s' : ℕ) (targets : List ℕ) (r : SubscriptionNode)
    → has_key s n r ≡ true
    → is_active_target s' targets r
      ≡ (s == s' && any_of (λ m. m == n) targets) && same_sync r.status SyncStatus.active
mark_row s n s' targets r h = ground (arith, any_of-eq r.node_id n targets)

mark_found :
    (s n s' : ℕ) (targets : List ℕ) (o : Option SubscriptionNode)
    → ((r : SubscriptionNode) → o ≡ some r → has_key s n r ≡ true)
    → map_row
        (λ r. if is_active_target s' targets r then set_status SyncStatus.pending_update r else r)
        o
      ≡ map_row (marked (s == s' && any_of (λ m. m == n) targets)) o
mark_found s n s' targets none h = refl
mark_found s n s' targets (some r) h = rw (mark_row s n s' targets r (h r refl)) refl

pub binding-mark :
    (s n s' : ℕ) (targets : List ℕ) (rows : List SubscriptionNode)
    → binding s n
        (update_if (is_active_target s' targets) (set_status SyncStatus.pending_update) rows)
      ≡ map_row (marked (s == s' && any_of (λ m. m == n) targets)) (binding s n rows)
binding-mark s n s' targets rows =
    find-update_if (has_key s n) (is_active_target s' targets)
      (set_status SyncStatus.pending_update) rows (λ r. refl)
    ∙ mark_found s n s' targets (binding s n rows) (λ r. find-pass (has_key s n) rows r)
