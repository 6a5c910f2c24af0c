-- ===== src/Service/PlanReconcile/Stores.antt =====
-- The two stores of the reconciliation do what their writes say; the nodes of a plan; the mark step.
use rs8kvn_bot.Common.{
  ℕ, suc, Bool, true, false, ◌&&◌, Option, none, some, List, [], ◌∷◌, ◌≡◌, refl, sym, arith, ◌∙◌,
  ◌==◌, ==_refl, select, any_of, count_if, update_if, count_if-any_of, count_if-update_if-eq,
}
use rs8kvn_bot.Database.Models.{Node, SubscriptionNode, SyncStatus}
use rs8kvn_bot.Database.Monad.{Db, Tables, ok, IsCalm}
use rs8kvn_bot.Database.SubscriptionNodes.{
  has_key, set_status, is_active_target, get_by_subscription_id, mark_active_nodes_pending_update,
  update_subscription_node_status, upsert_subscription_node,
}
use rs8kvn_bot.Database.SubscriptionNodes.Lookup.{binding, binding-mark, map_row, marked}
use rs8kvn_bot.Service.PlanReconcile.{
  tx_plan_store, db_service_plan_store, active_ids, in_target, get_nodes_by_plan_id,
}
use rs8kvn_bot.Service.PlanReconcile.Effects.{at, rows_of, StoreLaws}
use rs8kvn_bot.Service.PlanReconcile.Laws.{IsKeyed, is_mine}

found_counts :
    (s n : ℕ) (rows : List SubscriptionNode)
    → any_of (has_key s n) rows ≡ true
    → (count_if (has_key s n) rows == 0) ≡ false
found_counts s n rows h = ground (arith, count_if-any_of (has_key s n) rows)

pub tx_laws : StoreLaws tx_plan_store
unfolding tx_plan_store
tx_laws = record {
  sets = λ s n st db calm h. ground (arith, calm db.tick);
  upserts = λ s n db calm. ground (arith, calm db.tick);
}

pub background_laws : StoreLaws db_service_plan_store
unfolding db_service_plan_store update_subscription_node_status upsert_subscription_node
background_laws = record {
  sets = λ s n st db calm h. ground (arith, calm db.tick, found_counts s n (rows_of db) h);
  upserts = λ s n db calm. ground (arith, calm db.tick);
}

-- a node that a plan links and that is active
abbrev pub in_plan : Tables → ℕ → ℕ → Bool
in_plan t plan n =
    any_of
      (λ m.
        m.id == n
        && (m.is_active && any_of (λ p. p.plan_id == plan && p.node_id == m.id) t.plan_nodes))
      t.nodes

abbrev pub plan_targets : Tables → ℕ → List Node
plan_targets t plan =
    select (λ n. any_of (λ p. p.plan_id == plan && p.node_id == n.id) t.plan_nodes && n.is_active)
      t.nodes

pub targets_in_plan :
    (t : Tables) (plan n : ℕ) → in_target (active_ids (plan_targets t plan)) n ≡ in_plan t plan n
targets_in_plan t plan n = of_nodes t.nodes
  where
    linked : Node → Bool
    linked m = any_of (λ p. p.plan_id == plan && p.node_id == m.id) t.plan_nodes

    of_nodes :
        (nodes : List Node)
        → in_target
            (active_ids (
              select
                (λ n.
                  any_of (λ p. p.plan_id == plan && p.node_id == n.id) t.plan_nodes && n.is_active)
                nodes))
            n
          ≡ any_of
              (λ m.
                m.id == n
                && (m.is_active
                    && any_of (λ p. p.plan_id == plan && p.node_id == m.id) t.plan_nodes))
              nodes
    of_nodes [] = refl
    of_nodes (m ∷ nodes) = ground (arith, of_nodes nodes)

-- What the mark step leaves.
pub record Mark (s : ℕ) (targets : List ℕ) (db : Db) : Type 0 where
  pub rows : List SubscriptionNode
  pub clock : ℕ
  pub runs : mark_active_nodes_pending_update s targets db ≡ (ok tt, at db rows clock)
  pub own :
      (n : ℕ) → binding s n rows ≡ map_row (marked (in_target targets n)) (binding s n (rows_of db))
  pub others : (s' n : ℕ) → (s == s') ≡ false → binding s' n rows ≡ binding s' n (rows_of db)
  pub keyed : IsKeyed s rows

unmarked : (b : Option SubscriptionNode) → map_row (marked false) b ≡ b
unmarked none = refl
unmarked (some r) = refl

pub mark :
    (s : ℕ) (targets : List ℕ) (db : Db) → IsCalm db → IsKeyed s (rows_of db) → Mark s targets db
unfolding mark_active_nodes_pending_update
mark s [] db calm keyed = record {
  rows = rows_of db;
  clock = db.tick;
  runs = refl;
  own = λ n. sym (unmarked (binding s n (rows_of db)));
  others = λ s' n h. refl;
  keyed = keyed;
}
mark s (t ∷ ts) db calm keyed = record {
  rows =
      update_if (is_active_target s (t ∷ ts)) (set_status SyncStatus.pending_update) (rows_of db);
  clock = suc db.tick;
  runs = ground (arith, calm db.tick);
  own = λ n. binding-mark s n s (t ∷ ts) (rows_of db) ∙ rw (==_refl s) refl;
  others = λ s' n h.
      binding-mark s' n s (t ∷ ts) (rows_of db)
      ∙ rw (not_sym s s' h) (unmarked (binding s' n (rows_of db)));
  keyed = λ n.
      rw
        (count_if-update_if-eq (has_key s n) (is_active_target s (t ∷ ts))
          (set_status SyncStatus.pending_update) (rows_of db) (λ r. refl))
        (keyed n);
}
  where
    not_sym : (a b : ℕ) → (a == b) ≡ false → (b == a) ≡ false
    not_sym a b h = ground arith

abbrev pub next_db : Db → Db
next_db db = at db (rows_of db) (suc db.tick)

pub plan_runs :
    (plan : ℕ) (db : Db)
    → IsCalm db
    → get_nodes_by_plan_id plan db ≡ (ok (plan_targets db.tables plan), next_db db)
unfolding get_nodes_by_plan_id
plan_runs plan db calm = ground (arith, calm db.tick)

pub current_runs :
    (s : ℕ) (db : Db)
    → IsCalm db
    → get_by_subscription_id s db ≡ (ok (select (is_mine s) (rows_of db)), next_db db)
unfolding get_by_subscription_id
current_runs s db calm = ground (arith, calm db.tick)
