-- ===== src/Service/PlanReconcile/Loops.antt =====
-- The loops of the reconciliation, over any store that does what its two writes say.
use rs8kvn_bot.Common.{
  ℕ, Bool, true, Option, none, some, List, [], ◌∷◌, ◌≡◌, refl, arith, ◌==◌, ==→eq, if◌then◌else◌,
  any_of, all_of, all_of-imp, all_of-find, find-pass, Bool-cases, inl, inr,
}
use rs8kvn_bot.Database.Models.{SubscriptionNode, SyncStatus}
use rs8kvn_bot.Database.Monad.{Db, M, Error, IsCalm}
use rs8kvn_bot.Database.SubscriptionNodes.{has_key}
use rs8kvn_bot.Database.SubscriptionNodes.Lookup.{binding, or_fresh}
use rs8kvn_bot.Service.PlanReconcile.{
  PlanNodeStore, add_target, remove_stale, reactivate_or_insert, for_each, in_target, entry,
  has_entry,
}
use rs8kvn_bot.Service.PlanReconcile.Effects.{
  at, rows_of, StoreLaws, Effect, is_held, sequence, weaken, skip, set-Effect, upsert-Effect,
}
use rs8kvn_bot.Service.PlanReconcile.Bindings.{
  added, or_fresh-found, not_needed, needed, added_twice, removed, removed_twice, not_removed,
  removed_now, mine_of, kept_of, is_entry, entry_held,
}

module _ (store : PlanNodeStore) (laws : StoreLaws store) (aborts : Error → Bool) (s : ℕ) where
  reactivate-Effect :
      (node : ℕ) (current : List SubscriptionNode) (db : Db) (o : Option SubscriptionNode)
      → IsCalm db
      → all_of (is_held s (rows_of db)) current ≡ true
      → entry SyncStatus.pending_remove node current ≡ o
      → Effect s
          (reactivate_or_insert store aborts s node o)
          db
          (λ n b. if node == n then or_fresh s n b else b)
  reactivate-Effect node current db none calm held h =
      upsert-Effect store laws aborts s node db calm
  reactivate-Effect node current db (some row) calm held h =
      rw (mine, at_node)
        (weaken (set-Effect store laws aborts s node SyncStatus.pending_add db calm kept) (λ n.
          elim (Bool-cases (node == n)) [
            | inl same ↦ rw (same, ← ==→eq node n same) (or_fresh-found s node (rows_of db) kept)
            | inr other ↦ rw other refl
          ]))
    where
      known :
          (row.subscription_id ≡ s)
          × (row.node_id ≡ node)
          × (any_of (has_key s node) (rows_of db) ≡ true)
      known =
          entry_held s node (rows_of db) row
            (all_of-find (is_held s (rows_of db)) (is_entry SyncStatus.pending_remove node) current
              row held h)
            (find-pass (is_entry SyncStatus.pending_remove node) current row h)

      mine : row.subscription_id ≡ s
      mine = known.0

      at_node : row.node_id ≡ node
      at_node = known.1

      kept : any_of (has_key s node) (rows_of db) ≡ true
      kept = known.2

  add-Effect :
      (node : ℕ) (current : List SubscriptionNode) (db : Db)
      → IsCalm db
      → all_of (is_held s (rows_of db)) current ≡ true
      → Effect s
          (add_target store aborts s current node)
          db
          (λ n b. added s current (node == n) n b)
  unfolding add_target
  add-Effect node current db calm held =
      elim (Bool-cases (has_entry SyncStatus.active node current)) [
        | inl a ↦ rw a (weaken (skip s db) (λ n. not_needed s current node n _ (rw a refl)))
        | inr a ↦ rw a (elim (Bool-cases (has_entry SyncStatus.pending_add node current)) [
          | inl b ↦ rw b (weaken (skip s db) (λ n. not_needed s current node n _ (rw (a, b) refl)))
          | inr b ↦ rw b (elim (Bool-cases (has_entry SyncStatus.pending_update node current)) [
            | inl c ↦
                rw c (weaken (skip s db) (λ n. not_needed s current node n _ (rw (a, b, c) refl)))
            | inr c ↦ rw c (
                weaken (reactivate-Effect node current db _ calm held refl)
                  (λ n. needed s current node n _ (rw (a, b, c) refl)))
          ])
        ])
      ]

  pub held_after :
      {m : M (List Error)} {db : Db} {f : ℕ → Option SubscriptionNode → Option SubscriptionNode}
      (e : Effect s m db f) (current : List SubscriptionNode)
      → all_of (is_held s (rows_of db)) current ≡ true
      → all_of (is_held s e.rows) current ≡ true
  held_after {db = db} e current h =
      all_of-imp (is_held s (rows_of db)) (is_held s e.rows) current
        (λ r k. ground (arith, e.keeps r.node_id)) h

  pub add_loop :
      (targets : List ℕ) (current : List SubscriptionNode) (db : Db)
      → IsCalm db
      → all_of (is_held s (rows_of db)) current ≡ true
      → Effect s
          (for_each (add_target store aborts s current) targets)
          db
          (λ n b. added s current (in_target targets n) n b)
  unfolding for_each
  add_loop [] current db calm held = skip s db
  add_loop (t ∷ ts) current db calm held =
      let e = add-Effect t current db calm held in
      weaken
        (sequence e (add_loop ts current (at db e.rows e.clock) calm (held_after e current held)))
        (λ n. added_twice s current (t == n) (in_target ts n) n (binding s n (rows_of db)))

  remove-Effect :
      (targets : List ℕ) (row : SubscriptionNode) (db : Db)
      → IsCalm db
      → is_held s (rows_of db) row ≡ true
      → Effect s
          (remove_stale store aborts s targets row)
          db
          (λ n b. removed targets (row.node_id == n) n b)
  unfolding remove_stale
  remove-Effect targets row db calm held = elim (Bool-cases (in_target targets row.node_id)) [
    | inl a ↦ rw a (weaken (skip s db) (λ n. not_removed targets row.node_id n _ a))
    | inr a ↦
        rw (a, mine_of s (rows_of db) row held)
          (weaken
            (set-Effect store laws aborts s row.node_id SyncStatus.pending_remove db calm
              (kept_of s (rows_of db) row held))
            (λ n. removed_now targets row.node_id n _ a))
  ]

  pub remove_loop :
      (targets : List ℕ) (rows : List SubscriptionNode) (db : Db)
      → IsCalm db
      → all_of (is_held s (rows_of db)) rows ≡ true
      → Effect s
          (for_each (remove_stale store aborts s targets) rows)
          db
          (λ n b. removed targets (any_of (λ r. r.node_id == n) rows) n b)
  unfolding for_each
  remove_loop targets [] db calm held = skip s db
  remove_loop targets (r ∷ rows) db calm held =
      let e = remove-Effect targets r db calm (ground arith) in
      weaken
        (sequence e
          (remove_loop targets rows (at db e.rows e.clock) calm (held_after e rows (ground arith))))
        (λ n.
          removed_twice targets (r.node_id == n) (any_of (λ r. r.node_id == n) rows) n
            (binding s n (rows_of db)))
