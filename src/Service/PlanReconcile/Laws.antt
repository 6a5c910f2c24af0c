-- ===== src/Service/PlanReconcile/Laws.antt =====
-- The reconciliation carries out the transition table, whichever store it works on.
use rs8kvn_bot.Common.{
  ℕ, Bool, true, false, ◌&&◌, Option, none, some, List, [], ◌∷◌, ◌≡◌, ◌≤◌, refl, arith, ◌==◌,
  if◌then◌else◌, select, any_of, all_of, count_if, all_of-select, all_of-Perm, any_of-Perm, ◌∙◌,
  Bool-cases, inl, inr, Perm,
}
use rs8kvn_bot.Database.Models.{SubscriptionNode, SyncStatus}
use rs8kvn_bot.Database.Monad.{Db, Error, IsCalm}
use rs8kvn_bot.Database.SubscriptionNodes.{has_key, same_sync}
use rs8kvn_bot.Database.SubscriptionNodes.Lookup.{binding, fresh_row}
use rs8kvn_bot.Service.PlanReconcile.{
  PlanNodeStore, reconcile_rows, entries, in_target, has_entry, remove_stale, for_each,
}
use rs8kvn_bot.Service.PlanReconcile.Table.{transition}
use rs8kvn_bot.Service.PlanReconcile.Effects.{
  at, rows_of, StoreLaws, Effect, is_held, sequence, weaken,
}
use rs8kvn_bot.Service.PlanReconcile.Bindings.{added, removed}
use rs8kvn_bot.Service.PlanReconcile.Loops.{add_loop, remove_loop, held_after}

-- the unique key of the table: a subscription has one row for a node
abbrev pub IsKeyed : ℕ → List SubscriptionNode → Type 0
IsKeyed s rows = (n : ℕ) → count_if (has_key s n) rows ≤ 1

abbrev pub is_mine : ℕ → SubscriptionNode → Bool
is_mine s r = r.subscription_id == s

pub held_select :
    (s : ℕ) (rows xs : List SubscriptionNode)
    → ((n : ℕ) → any_of (has_key s n) xs ≡ true → any_of (has_key s n) rows ≡ true)
    → all_of (is_held s rows) (select (is_mine s) xs) ≡ true
held_select s rows [] h = refl
held_select s rows (r ∷ xs) h = elim (Bool-cases (r.subscription_id == s)) [
  | inl mine ↦ ground (arith, h r.node_id, held_select s rows xs (λ n k. h n (ground arith)))
  | inr other ↦ ground (arith, held_select s rows xs (λ n k. h n (ground arith)))
]

any_of-select :
    (p q : SubscriptionNode → Bool) (xs : List SubscriptionNode)
    → any_of p (select q xs) ≡ any_of (λ r. q r && p r) xs
any_of-select p q [] = refl
any_of-select p q (x ∷ xs) = ground (arith, any_of-select p q xs)

abbrev status_is : SyncStatus → Option SubscriptionNode → Bool
status_is st none = false
status_is st (some r) = same_sync r.status st

no_entry :
    (s n : ℕ) (st : SyncStatus) (rows : List SubscriptionNode)
    → count_if (has_key s n) rows ≡ 0
    → has_entry st n (select (is_mine s) rows) ≡ false
no_entry s n st [] h = refl
no_entry s n st (r ∷ rows) h = ground (arith, no_entry s n st rows)

-- The maps of the core tell the status of the binding.
entry_status :
    (s n : ℕ) (st : SyncStatus) (rows : List SubscriptionNode)
    → count_if (has_key s n) rows ≤ 1
    → has_entry st n (select (is_mine s) rows) ≡ status_is st (binding s n rows)
entry_status s n st [] h = refl
entry_status s n st (r ∷ rows) h = ground (arith, entry_status s n st rows, no_entry s n st rows)

-- What the four loops do to one binding is what the table says.
table :
    (s n : ℕ) (targets : List ℕ) (current : List SubscriptionNode) (t : Bool)
    (b : Option SubscriptionNode)
    → in_target targets n ≡ t
    → has_entry SyncStatus.active n current ≡ status_is SyncStatus.active b
    → has_entry SyncStatus.pending_add n current ≡ status_is SyncStatus.pending_add b
    → has_entry SyncStatus.pending_update n current ≡ status_is SyncStatus.pending_update b
    → removed targets (has_entry SyncStatus.pending_update n current) n (
        removed targets (has_entry SyncStatus.pending_add n current) n (
          removed targets
            (has_entry SyncStatus.active n current)
            n
            (added s current (in_target targets n) n b)))
      ≡ transition s n (in_target targets n) b
table s n targets current t none et ea ep eu = rw (ea, ep, eu) (at_target (in_target targets n))
  where
    at_target :
        (q : Bool) → (if q && true then some (fresh_row s n) else none) ≡ transition s n q none
    at_target true = refl
    at_target false = refl
table s n targets current t (some r) et ea ep eu = ground arith

module _ (range : List SubscriptionNode → List SubscriptionNode)
    (ranges : (l : List SubscriptionNode) → Perm (range l) l) (store : PlanNodeStore)
    (laws : StoreLaws store) (aborts : Error → Bool) (s : ℕ) where
  entries_held :
      (st : SyncStatus) (rows current : List SubscriptionNode)
      → all_of (is_held s rows) current ≡ true
      → all_of (is_held s rows) (entries range st current) ≡ true
  entries_held st rows current h =
      all_of-Perm (is_held s rows) (ranges (select (λ r. same_sync r.status st) current))
      ∙ all_of-select (is_held s rows) (λ r. same_sync r.status st) current h

  entries_listed :
      (st : SyncStatus) (n : ℕ) (current : List SubscriptionNode)
      → any_of (λ r. r.node_id == n) (entries range st current) ≡ has_entry st n current
  entries_listed st n current =
      any_of-Perm (λ r. r.node_id == n) (ranges (select (λ r. same_sync r.status st) current))
      ∙ any_of-select (λ r. r.node_id == n) (λ r. same_sync r.status st) current

  remove_entries :
      (st : SyncStatus) (targets : List ℕ) (current : List SubscriptionNode) (db : Db)
      → IsCalm db
      → all_of (is_held s (rows_of db)) current ≡ true
      → Effect s
          (for_each (remove_stale store aborts s targets) (entries range st current))
          db
          (λ n b. removed targets (has_entry st n current) n b)
  remove_entries st targets current db calm held =
      weaken
        (remove_loop store laws aborts s targets (entries range st current) db calm
          (entries_held st (rows_of db) current held))
        (λ n. rw (entries_listed st n current) refl)

  pub reconcile-Effect :
      (targets : List ℕ) (db : Db)
      → IsCalm db
      → IsKeyed s (rows_of db)
      → Effect s
          (reconcile_rows range store aborts s targets (select (is_mine s) (rows_of db)))
          db
          (λ n b. transition s n (in_target targets n) b)
  unfolding reconcile_rows
  reconcile-Effect targets db calm keyed =
      let current = select (is_mine s) (rows_of db) in
      let held = held_select s (rows_of db) (rows_of db) (λ n h. h) in
      let e = add_loop store laws aborts s targets current db calm held in
      let db1 = at db e.rows e.clock in
      let held1 = held_after store laws aborts s e current held in
      let e1 = remove_entries SyncStatus.active targets current db1 calm held1 in
      let db2 = at db1 e1.rows e1.clock in
      let held2 = held_after store laws aborts s e1 current held1 in
      let e2 = remove_entries SyncStatus.pending_add targets current db2 calm held2 in
      let db3 = at db2 e2.rows e2.clock in
      let held3 = held_after store laws aborts s e2 current held2 in
      let e3 = remove_entries SyncStatus.pending_update targets current db3 calm held3 in
      weaken (sequence e (sequence e1 (sequence e2 e3))) (λ n.
        table s n targets current (in_target targets n) (binding s n (rows_of db)) refl
          (entry_status s n SyncStatus.active (rows_of db) (keyed n))
          (entry_status s n SyncStatus.pending_add (rows_of db) (keyed n))
          (entry_status s n SyncStatus.pending_update (rows_of db) (keyed n)))
