-- ===== src/Service/PlanReconcile/Frame.antt =====
-- Applying a plan in the payment's transaction writes neither orders nor subscriptions, whichever
-- of its statements fail: what the confirmation and the chargeback ask of their plan change.
use rs8kvn_bot.Common.{
  ℕ, Bool, true, false, Option, none, some, List, [], ◌∷◌, ◌≡◌, refl, arith, ◌∙◌, ◌++◌, ◌==◌,
  count_if, update_if, select, if◌then◌else◌, Bool-cases, inl, inr,
}
use rs8kvn_bot.Database.Models.{Node, SubscriptionNode, SyncStatus}
use rs8kvn_bot.Database.Monad.{Db, Tables, Error, Result, ok, err, M, ◌>>=◌, pure, statement}
use rs8kvn_bot.Database.SubscriptionNodes.{
  mark_active_nodes_pending_update, get_by_subscription_id, update_nodes, has_key, set_status,
  set_rows, upsert_row, is_active_target,
}
use rs8kvn_bot.Database.SubscriptionNodes.Lookup.{fresh_row}
use rs8kvn_bot.Service.PlanReconcile.Stores.{plan_targets}
use rs8kvn_bot.Database.Orders.Confirm.Activation.{OnlyNodes}
use rs8kvn_bot.Service.PlanReconcile.{
  tx_plan_store, for_each, add_target, remove_stale, report, reconcile_rows,
  reconcile_plan_nodes_core, apply_plan_to_subscription_in_tx, get_nodes_by_plan_id, join_errors,
  reactivate_or_insert, and_then, active_ids, tx_options, entry, has_entry, in_target, entries,
}

abbrev Keeps : Db → Db → Type 0
Keeps before after =
    (after.tables.orders ≡ before.tables.orders)
    × (after.tables.subscriptions ≡ before.tables.subscriptions)

abbrev Frame : {A : Type 0} → M A → Type 0
Frame m = (db : Db) → Keeps db (m db).1

Frame-pure : {A : Type 0} (a : A) → Frame (pure a)
Frame-pure a db = (refl, refl)

Frame-empty : Frame (pure {A = List Error} [])
Frame-empty db = (refl, refl)

Frame-statement :
    {A : Type 0} (act : Tables → Result A × Tables)
    → ((t : Tables) → ((act t).1.orders ≡ t.orders) × ((act t).1.subscriptions ≡ t.subscriptions))
    → Frame (statement act)
Frame-statement act h db = ground (arith, h db.tables)

-- the second half of a bind
abbrev next : {A B : Type 0} → (A → M B) → Result A × Db → Result B × Db
next f (r, db) = elim r [ ok a ↦ f a db | err e ↦ (err e, db) ]

next-Keeps :
    {A B : Type 0} (f : A → M B) (before : Db) (r : Result A × Db)
    → ((a : A) → Frame (f a))
    → Keeps before r.1
    → Keeps before (next f r).1
next-Keeps f before (ok a, db) h k = ((h a db).0 ∙ k.0, (h a db).1 ∙ k.1)
next-Keeps f before (err e, db) h k = k

Frame-bind :
    {A B : Type 0} (m : M A) (f : A → M B) → Frame m → ((a : A) → Frame (f a)) → Frame (m >>= f)
Frame-bind m f h k db = next-Keeps f db (m db) k (h db)

abbrev reported : (Error → Bool) → Result (Unit {0}) × Db → Result (List Error) × Db
reported aborts (r, db) = elim r [
  | ok u ↦ (ok [], db)
  | err e ↦ if aborts e then (err e, db) else (ok (e ∷ []), db)
]

reported-Keeps :
    (aborts : Error → Bool) (before : Db) (r : Result (Unit {0}) × Db)
    → Keeps before r.1
    → Keeps before (reported aborts r).1
reported-Keeps aborts before (ok u, db) k = k
reported-Keeps aborts before (err e, db) k = elim (Bool-cases (aborts e)) [
  | inl a ↦ rw a k
  | inr a ↦ rw a k
]

Frame-report : (aborts : Error → Bool) (m : M (Unit {0})) → Frame m → Frame (report aborts m)
Frame-report aborts m h db = reported-Keeps aborts db (m db) (h db)

Frame-and_then : (m k : M (List Error)) → Frame m → Frame k → Frame (and_then m k)
Frame-and_then m k h h' =
    Frame-bind m (λ es. k >>= λ fs. pure (es ++ fs)) h
      (λ es. Frame-bind k (λ fs. pure (es ++ fs)) h' (λ fs. Frame-pure (es ++ fs)))

Frame-for_each :
    {A : Type 0} (f : A → M (List Error)) (xs : List A)
    → ((a : A) → Frame (f a))
    → Frame (for_each f xs)
unfolding for_each
Frame-for_each f [] h = Frame-empty
Frame-for_each f (x ∷ xs) h = Frame-and_then (f x) (for_each f xs) (h x) (Frame-for_each f xs h)

Frame-if : {A : Type 0} (b : Bool) (m k : M A) → Frame m → Frame k → Frame (if b then m else k)
Frame-if true m k h h' = h
Frame-if false m k h h' = h'

Frame-update :
    (p : SubscriptionNode → Bool) (f : SubscriptionNode → SubscriptionNode)
    → Frame (update_nodes p f >>= λ k. pure tt)
Frame-update p f =
    Frame-bind (update_nodes p f) (λ k. pure tt)
      (Frame-statement
        (λ t.
          (ok (count_if p t.subscription_nodes), set_rows t (update_if p f t.subscription_nodes)))
        (λ t. (refl, refl)))
      (λ k. Frame-pure tt)

Frame-set : (s n : ℕ) (st : SyncStatus) → Frame (tx_plan_store.set_node_status s n st)
unfolding tx_plan_store
Frame-set s n st = Frame-update (has_key s n) (set_status st)

Frame-upsert : (r : SubscriptionNode) → Frame (tx_plan_store.upsert_pending_add r)
unfolding tx_plan_store
Frame-upsert r =
    Frame-statement (λ t. (ok tt, set_rows t (upsert_row r t.subscription_nodes)))
      (λ t. (refl, refl))

Frame-reactivate :
    (aborts : Error → Bool) (s n : ℕ) (o : Option SubscriptionNode)
    → Frame (reactivate_or_insert tx_plan_store aborts s n o)
Frame-reactivate aborts s n none =
    Frame-report aborts (tx_plan_store.upsert_pending_add (fresh_row s n))
      (Frame-upsert (fresh_row s n))
Frame-reactivate aborts s n (some r) =
    Frame-report aborts
      (tx_plan_store.set_node_status r.subscription_id r.node_id SyncStatus.pending_add)
      (Frame-set r.subscription_id r.node_id SyncStatus.pending_add)

Frame-add :
    (aborts : Error → Bool) (s : ℕ) (current : List SubscriptionNode) (n : ℕ)
    → Frame (add_target tx_plan_store aborts s current n)
unfolding add_target
Frame-add aborts s current n =
    let insert =
      reactivate_or_insert tx_plan_store aborts s n (entry SyncStatus.pending_remove n current) in
    let unless_update = if has_entry SyncStatus.pending_update n current then pure [] else insert in
    let unless_add =
      if has_entry SyncStatus.pending_add n current then pure [] else unless_update in
    Frame-if (has_entry SyncStatus.active n current) (pure []) unless_add Frame-empty (
      Frame-if (has_entry SyncStatus.pending_add n current) (pure []) unless_update Frame-empty (
        Frame-if (has_entry SyncStatus.pending_update n current) (pure []) insert Frame-empty
          (Frame-reactivate aborts s n (entry SyncStatus.pending_remove n current))))

Frame-remove :
    (aborts : Error → Bool) (s : ℕ) (targets : List ℕ) (r : SubscriptionNode)
    → Frame (remove_stale tx_plan_store aborts s targets r)
unfolding remove_stale
Frame-remove aborts s targets r =
    Frame-if (in_target targets r.node_id) (pure [])
      (report aborts
        (tx_plan_store.set_node_status r.subscription_id r.node_id SyncStatus.pending_remove))
      Frame-empty
      (Frame-report aborts
        (tx_plan_store.set_node_status r.subscription_id r.node_id SyncStatus.pending_remove)
        (Frame-set r.subscription_id r.node_id SyncStatus.pending_remove))

Frame-mark : (s : ℕ) (ids : List ℕ) → Frame (mark_active_nodes_pending_update s ids)
unfolding mark_active_nodes_pending_update
Frame-mark s [] = Frame-pure tt
Frame-mark s (n ∷ ns) =
    Frame-update (is_active_target s (n ∷ ns)) (set_status SyncStatus.pending_update)

Frame-join : (es : List Error) → Frame (join_errors es)
Frame-join [] = Frame-pure tt
Frame-join (e ∷ es) = λ db. (refl, refl)

Frame-nodes : (plan : ℕ) → Frame (get_nodes_by_plan_id plan)
unfolding get_nodes_by_plan_id
Frame-nodes plan = Frame-statement (λ t. (ok (plan_targets t plan), t)) (λ t. (refl, refl))

Frame-current : (s : ℕ) → Frame (get_by_subscription_id s)
unfolding get_by_subscription_id
Frame-current s =
    Frame-statement (λ t. (ok (select (λ r. r.subscription_id == s) t.subscription_nodes), t))
      (λ t. (refl, refl))

module _ (range : List SubscriptionNode → List SubscriptionNode) where
  Frame-rows :
      (aborts : Error → Bool) (s : ℕ) (targets : List ℕ) (current : List SubscriptionNode)
      → Frame (reconcile_rows range tx_plan_store aborts s targets current)
  unfolding reconcile_rows
  Frame-rows aborts s targets current =
      let remove = λ (st : SyncStatus).
        for_each (remove_stale tx_plan_store aborts s targets) (entries range st current) in
      let removes = λ (st : SyncStatus).
        Frame-for_each (remove_stale tx_plan_store aborts s targets) (entries range st current)
          (Frame-remove aborts s targets) in
      let stale = and_then (remove SyncStatus.pending_add) (remove SyncStatus.pending_update) in
      Frame-and_then (for_each (add_target tx_plan_store aborts s current) targets)
        (and_then (remove SyncStatus.active) stale)
        (Frame-for_each (add_target tx_plan_store aborts s current) targets
          (Frame-add aborts s current))
        (Frame-and_then (remove SyncStatus.active) stale (removes SyncStatus.active) (
          Frame-and_then (remove SyncStatus.pending_add) (remove SyncStatus.pending_update)
            (removes SyncStatus.pending_add) (removes SyncStatus.pending_update)))

  Frame-core :
      (s plan : ℕ) (nodes : List Node)
      → Frame (reconcile_plan_nodes_core range tx_plan_store s (tx_options plan nodes))
  unfolding reconcile_plan_nodes_core tx_plan_store
  Frame-core s plan nodes =
      let rows_then = reconcile_rows range tx_plan_store (λ e. true) s (active_ids nodes) in
      Frame-bind (get_by_subscription_id s) rows_then (Frame-current s)
        (Frame-rows (λ e. true) s (active_ids nodes))

  -- The plan change of a payment, whichever statements fail, keeps the orders and the subscriptions.
  pub apply_in_tx-OnlyNodes : OnlyNodes (some (apply_plan_to_subscription_in_tx range))
  unfolding apply_plan_to_subscription_in_tx tx_plan_store
  apply_in_tx-OnlyNodes s plan =
      let core = λ (nodes : List Node).
        reconcile_plan_nodes_core range tx_plan_store s (tx_options plan nodes) in
      let mark = λ (nodes : List Node). mark_active_nodes_pending_update s (active_ids nodes) in
      Frame-bind (get_nodes_by_plan_id plan)
        (λ nodes. mark nodes >>= λ u. core nodes >>= join_errors) (Frame-nodes plan)
        (λ nodes.
          Frame-bind (mark nodes) (λ u. core nodes >>= join_errors)
            (Frame-mark s (active_ids nodes))
            (λ u. Frame-bind (core nodes) join_errors (Frame-core s plan nodes) Frame-join))
