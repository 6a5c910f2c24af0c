-- ===== src/Service/PlanReconcile/Apply.antt =====
-- What applying a plan does to the bindings of every subscription when no statement fails.
use rs8kvn_bot.Common.{
  ℕ, true, false, Option, some, List, [], ◌≡◌, arith, find, ap, ◌∙◌, ◌==◌, if◌then◌else◌, select,
  Perm,
}
use rs8kvn_bot.Database.Models.{Node, Subscription, SubscriptionNode}
use rs8kvn_bot.Database.Monad.{Db, ok, M, IsCalm, ◌>>=◌, pure}
use rs8kvn_bot.Database.Monad.Runs.{>>=_ok}
use rs8kvn_bot.Database.Orders.Confirm.{first_subscription}
use rs8kvn_bot.Database.SubscriptionNodes.{get_by_subscription_id, mark_active_nodes_pending_update}
use rs8kvn_bot.Database.SubscriptionNodes.Lookup.{binding, map_row, marked}
use rs8kvn_bot.Service.PlanReconcile.{
  tx_plan_store, db_service_plan_store, active_ids, apply_plan_to_subscription_in_tx,
  reconcile_plan_nodes_core, get_nodes_by_plan_id, join_errors, reconcile_rows, tx_options,
  background_options, is_ctx_err, is_revoked, reconcile_plan, reconcile_plan_nodes_locked,
  apply_plan_to_subscription_locked,
}
use rs8kvn_bot.Service.PlanReconcile.Table.{apply_transition, transition}
use rs8kvn_bot.Service.PlanReconcile.Effects.{at, rows_of}
use rs8kvn_bot.Service.PlanReconcile.Laws.{IsKeyed, is_mine, reconcile-Effect}
use rs8kvn_bot.Service.PlanReconcile.Stores.{
  tx_laws, background_laws, in_plan, plan_targets, targets_in_plan, mark, next_db, plan_runs,
  current_runs,
}

-- The run succeeds, changes the bindings of subscription `s` by `next`, and no other row.
pub record Applied (s : ℕ) (next : ℕ → Option SubscriptionNode → Option SubscriptionNode)
    (run : M (Unit {0})) (db : Db) : Type 0 where
  pub rows : List SubscriptionNode
  pub clock : ℕ
  pub runs : run db ≡ (ok tt, at db rows clock)
  pub own : (n : ℕ) → binding s n rows ≡ next n (binding s n (rows_of db))
  pub others : (s' n : ℕ) → (s == s') ≡ false → binding s' n rows ≡ binding s' n (rows_of db)

module _ (range : List SubscriptionNode → List SubscriptionNode)
    (ranges : (l : List SubscriptionNode) → Perm (range l) l) where
  tx_core :
      (s plan : ℕ) (nodes : List Node) (db : Db) {after : Db}
      → IsCalm db
      → reconcile_rows range tx_plan_store
          (λ e. true)
          s
          (active_ids nodes)
          (select (is_mine s) (rows_of db))
          (next_db db)
        ≡ (ok [], after)
      → reconcile_plan_nodes_core range tx_plan_store s (tx_options plan nodes) db ≡ (ok [], after)
  unfolding reconcile_plan_nodes_core tx_plan_store
  tx_core s plan nodes db calm h =
      >>=_ok (get_by_subscription_id s)
        (reconcile_rows range tx_plan_store (λ e. true) s (active_ids nodes)) db
        (current_runs s db calm)
      ∙ h

  tx_runs :
      (s plan : ℕ) (nodes : List Node) (db : Db) {db1 db2 after : Db}
      → get_nodes_by_plan_id plan db ≡ (ok nodes, db1)
      → mark_active_nodes_pending_update s (active_ids nodes) db1 ≡ (ok tt, db2)
      → reconcile_plan_nodes_core range tx_plan_store s (tx_options plan nodes) db2 ≡ (ok [], after)
      → apply_plan_to_subscription_in_tx range s plan db ≡ (ok tt, after)
  unfolding apply_plan_to_subscription_in_tx tx_plan_store
  tx_runs s plan nodes db {db1} {db2} a m c =
      let core = λ (targets : List Node).
        reconcile_plan_nodes_core range tx_plan_store s (tx_options plan targets) in
      let marked_then = λ (targets : List Node).
        mark_active_nodes_pending_update s (active_ids targets) >>= λ _.
        core targets >>= join_errors in
      >>=_ok (get_nodes_by_plan_id plan) marked_then db a
      ∙ >>=_ok (mark_active_nodes_pending_update s (active_ids nodes))
          (λ _. core nodes >>= join_errors) db1 m
      ∙ >>=_ok (core nodes) join_errors db2 c

  -- A payment's plan change carries out the table for the plan's active nodes: when no statement
  -- fails and a subscription has at most one row for a node, it succeeds, it leaves each binding of
  -- the subscription as the table says, and it changes no other subscription's bindings.
  pub apply_in_tx_transitions :
      (s plan : ℕ) (db : Db)
      → IsCalm db
      → IsKeyed s (rows_of db)
      → Applied s
          (λ n. apply_transition s n (in_plan db.tables plan n))
          (apply_plan_to_subscription_in_tx range s plan)
          db
  unfolding apply_plan_to_subscription_in_tx
  apply_in_tx_transitions s plan db calm keyed =
      let nodes = plan_targets db.tables plan in
      let targets = active_ids nodes in
      let m = mark s targets (next_db db) calm keyed in
      let db2 = at db m.rows m.clock in
      let e =
        reconcile-Effect range ranges tx_plan_store tx_laws (λ x. true) s targets (next_db db2) calm
          m.keyed in
      record {
        rows = e.rows;
        clock = e.clock;
        runs =
            tx_runs s plan nodes db (plan_runs plan db calm) m.runs
              (tx_core s plan nodes db2 calm e.runs);
        own = λ n.
            e.own n
            ∙ rw (targets_in_plan db.tables plan n, m.own n)
                (ap
                  (λ t.
                    transition s n (in_plan db.tables plan n)
                      (map_row (marked t) (binding s n (rows_of db))))
                  (targets_in_plan db.tables plan n));
        others = λ s' n h. e.others s' n h ∙ m.others s' n h;
      }

  background_core :
      (s : ℕ) (sub : Subscription) (db : Db) {after : Db}
      → IsCalm db
      → first_subscription s db ≡ (ok sub, next_db db)
      → is_revoked sub.status ≡ false
      → reconcile_rows range db_service_plan_store is_ctx_err s
          (active_ids (plan_targets db.tables sub.plan_id))
          (select (is_mine s) (rows_of db))
          (next_db (next_db (next_db db)))
        ≡ (ok [], after)
      → reconcile_plan_nodes_core range db_service_plan_store s background_options db
        ≡ (ok [], after)
  unfolding reconcile_plan_nodes_core db_service_plan_store
  background_core s sub db calm h live run =
      let rows_then = λ (targets : List Node).
        reconcile_rows range db_service_plan_store is_ctx_err s (active_ids targets) in
      let plan_then = λ (u : Subscription).
        reconcile_plan range db_service_plan_store s background_options u.plan_id in
      let nodes = plan_targets db.tables sub.plan_id in
      >>=_ok (first_subscription s) (λ u. if is_revoked u.status then pure [] else plan_then u) db h
      ∙ rw live (
          >>=_ok (get_nodes_by_plan_id sub.plan_id)
            (λ targets. get_by_subscription_id s >>= rows_then targets) (next_db db)
            (plan_runs sub.plan_id (next_db db) calm)
          ∙ >>=_ok (get_by_subscription_id s) (rows_then nodes) (next_db (next_db db))
              (current_runs s (next_db (next_db db)) calm)
          ∙ run)

  first_runs :
      (s : ℕ) (sub : Subscription) (db : Db)
      → IsCalm db
      → find (λ u. u.id == s) db.tables.subscriptions ≡ some sub
      → first_subscription s db ≡ (ok sub, next_db db)
  first_runs s sub db calm h = ground (arith, calm db.tick)

  background_runs :
      (s : ℕ) (sub : Subscription) (nodes : List Node) (db : Db) {db1 db2 db3 after : Db}
      → first_subscription s db ≡ (ok sub, db1)
      → get_nodes_by_plan_id sub.plan_id db1 ≡ (ok nodes, db2)
      → mark_active_nodes_pending_update s (active_ids nodes) db2 ≡ (ok tt, db3)
      → reconcile_plan_nodes_core range db_service_plan_store s background_options db3
        ≡ (ok [], after)
      → apply_plan_to_subscription_locked range s db ≡ (ok tt, after)
  unfolding apply_plan_to_subscription_locked reconcile_plan_nodes_locked
  background_runs s sub nodes db {db1} {db2} {db3} f a m c =
      let reconcile = reconcile_plan_nodes_locked range s in
      let marked_then = λ (targets : List Node).
        mark_active_nodes_pending_update s (active_ids targets) >>= λ _. reconcile in
      >>=_ok (first_subscription s) (λ u. get_nodes_by_plan_id u.plan_id >>= marked_then) db f
      ∙ >>=_ok (get_nodes_by_plan_id sub.plan_id) marked_then db1 a
      ∙ >>=_ok (mark_active_nodes_pending_update s (active_ids nodes)) (λ _. reconcile) db2 m
      ∙ >>=_ok (reconcile_plan_nodes_core range db_service_plan_store s background_options)
          join_errors db3 c

  -- Applying the plan in the background carries out the same table for the plan of the
  -- subscription's row, so both entry points leave the same bindings: when no statement fails, the
  -- subscription exists and is not revoked, and it has at most one row for a node, the call
  -- succeeds, and no other subscription's binding changes. The table has no case for a plan without
  -- active nodes: a pending_add binding becomes pending_remove there too.
  pub apply_in_background_transitions :
      (s : ℕ) (sub : Subscription) (db : Db)
      → IsCalm db
      → IsKeyed s (rows_of db)
      → find (λ u. u.id == s) db.tables.subscriptions ≡ some sub
      → is_revoked sub.status ≡ false
      → Applied s
          (λ n. apply_transition s n (in_plan db.tables sub.plan_id n))
          (apply_plan_to_subscription_locked range s)
          db
  apply_in_background_transitions s sub db calm keyed h live =
      let plan = sub.plan_id in
      let nodes = plan_targets db.tables plan in
      let targets = active_ids nodes in
      let m = mark s targets (next_db (next_db db)) calm keyed in
      let db3 = at db m.rows m.clock in
      let e =
        reconcile-Effect range ranges db_service_plan_store background_laws is_ctx_err s targets
          (next_db (next_db (next_db db3))) calm m.keyed in
      record {
        rows = e.rows;
        clock = e.clock;
        runs =
            background_runs s sub nodes db (first_runs s sub db calm h)
              (plan_runs plan (next_db db) calm) m.runs
              (background_core s sub db3 calm (first_runs s sub db3 calm h) live e.runs);
        own = λ n.
            e.own n
            ∙ rw (targets_in_plan db.tables plan n, m.own n)
                (ap
                  (λ t.
                    transition s n (in_plan db.tables plan n)
                      (map_row (marked t) (binding s n (rows_of db))))
                  (targets_in_plan db.tables plan n));
        others = λ s' n h. e.others s' n h ∙ m.others s' n h;
      }
