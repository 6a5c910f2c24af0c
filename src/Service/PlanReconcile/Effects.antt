-- ===== src/Service/PlanReconcile/Effects.antt =====
-- Runs of the reconciliation, described by their effect on the binding of each node, over any store
-- that does what its two writes say.
use rs8kvn_bot.Common.{
  ℕ, suc, Bool, true, false, ◌&&◌, Option, List, [], ◌∷◌, ◌++◌, ◌≡◌, refl, arith, ◌∙◌, ◌==◌,
  if◌then◌else◌, update_if, any_of, ap, any_of-append, Bool-cases, inl, inr,
}
use rs8kvn_bot.Database.Models.{SubscriptionNode, SyncStatus}
use rs8kvn_bot.Database.Monad.{Db, M, Error, ok, err, pure, ◌>>=◌, IsCalm}
use rs8kvn_bot.Database.Monad.Runs.{>>=_ok}
use rs8kvn_bot.Database.SubscriptionNodes.{has_key, set_status, set_rows, upsert_row, merge_row}
use rs8kvn_bot.Database.SubscriptionNodes.Lookup.{
  binding, binding-set_status, binding-upsert, fresh_row, map_row, or_fresh,
}
use rs8kvn_bot.Service.PlanReconcile.{PlanNodeStore, report, and_then}

-- the database with other bindings, at a later clock
abbrev pub at : Db → List SubscriptionNode → ℕ → Db
at db rows clock = record db { tables = set_rows db.tables rows; tick = clock }

abbrev pub rows_of : Db → List SubscriptionNode
rows_of db = db.tables.subscription_nodes

pub record StoreLaws (store : PlanNodeStore) : Type 0 where
  pub sets :
      (s n : ℕ) (st : SyncStatus) (db : Db)
      → IsCalm db
      → any_of (has_key s n) (rows_of db) ≡ true
      → store.set_node_status s n st db
        ≡ (ok tt, at db (update_if (has_key s n) (set_status st) (rows_of db)) (suc db.tick))
  pub upserts :
      (s n : ℕ) (db : Db)
      → IsCalm db
      → store.upsert_pending_add (fresh_row s n) db
        ≡ (ok tt, at db (upsert_row (fresh_row s n) (rows_of db)) (suc db.tick))

-- The run succeeds, joins no error, and changes the bindings of subscription `s` by `after`.
pub record Effect (s : ℕ) (m : M (List Error)) (db : Db)
    (after : ℕ → Option SubscriptionNode → Option SubscriptionNode) : Type 0 where
  pub rows : List SubscriptionNode
  pub clock : ℕ
  pub runs : m db ≡ (ok [], at db rows clock)
  pub own : (n : ℕ) → binding s n rows ≡ after n (binding s n (rows_of db))
  pub others : (s' n : ℕ) → (s == s') ≡ false → binding s' n rows ≡ binding s' n (rows_of db)
  pub keeps : (n : ℕ) → any_of (has_key s n) (rows_of db) ≡ true → any_of (has_key s n) rows ≡ true

-- A row of the snapshot is the subscription's, and still has a row in the table.
abbrev pub is_held : ℕ → List SubscriptionNode → SubscriptionNode → Bool
is_held s rows r = r.subscription_id == s && any_of (has_key s r.node_id) rows

pub any_of-update :
    (s n s' n' : ℕ) (st : SyncStatus) (rows : List SubscriptionNode)
    → any_of (has_key s n) rows ≡ true
    → any_of (has_key s n) (update_if (has_key s' n') (set_status st) rows) ≡ true
any_of-update s n s' n' st [] h = cc
any_of-update s n s' n' st (r ∷ rows) h = ground (arith, any_of-update s n s' n' st rows)

any_of-update_merge :
    (s n s' n' : ℕ) (rows : List SubscriptionNode)
    → any_of (has_key s n) rows ≡ true
    → any_of (has_key s n) (update_if (has_key s' n') (merge_row (fresh_row s' n')) rows) ≡ true
any_of-update_merge s n s' n' [] h = cc
any_of-update_merge s n s' n' (r ∷ rows) h = ground (arith, any_of-update_merge s n s' n' rows)

any_of-merge :
    (s n s' n' : ℕ) (rows : List SubscriptionNode)
    → any_of (has_key s n) rows ≡ true
    → any_of (has_key s n) (upsert_row (fresh_row s' n') rows) ≡ true
any_of-merge s n s' n' rows h = elim (Bool-cases (any_of (has_key s' n') rows)) [
  | inl old ↦ rw (upsert_row, old) (any_of-update_merge s n s' n' rows h)
  | inr new ↦ rw (upsert_row, new) (any_of-append (has_key s n) rows (fresh_row s' n' ∷ []) h)
]

report_ok :
    (aborts : Error → Bool) (m : M (Unit {0})) (db : Db) {db' : Db}
    → m db ≡ (ok tt, db')
    → report aborts m db ≡ (ok [], db')
report_ok aborts m db h =
    ap
      (λ r. elim (r.0) [
        | ok u ↦ (ok [], r.1)
        | err e ↦ if aborts e then (err e, r.1) else (ok (e ∷ []), r.1)
      ])
      h

pub sequence :
    {s : ℕ} {m k : M (List Error)} {db : Db}
    {f g : ℕ → Option SubscriptionNode → Option SubscriptionNode} (e : Effect s m db f)
    → Effect s k (at db e.rows e.clock) g
    → Effect s (and_then m k) db (λ n b. g n (f n b))
sequence {m = m} {k = k} {db = db} {g = g} e e' = record {
  rows = e'.rows;
  clock = e'.clock;
  runs =
      >>=_ok m (λ es. k >>= λ fs. pure (es ++ fs)) db e.runs
      ∙ >>=_ok k pure (at db e.rows e.clock) e'.runs;
  own = λ n. e'.own n ∙ ap (g n) (e.own n);
  others = λ s' n h. e'.others s' n h ∙ e.others s' n h;
  keeps = λ n h. e'.keeps n (e.keeps n h);
}

pub weaken :
    {s : ℕ} {m : M (List Error)} {db : Db}
    {f g : ℕ → Option SubscriptionNode → Option SubscriptionNode}
    → Effect s m db f
    → ((n : ℕ) → f n (binding s n (rows_of db)) ≡ g n (binding s n (rows_of db)))
    → Effect s m db g
weaken e same = record {
  rows = e.rows;
  clock = e.clock;
  runs = e.runs;
  own = λ n. e.own n ∙ same n;
  others = e.others;
  keeps = e.keeps;
}

pub skip : (s : ℕ) (db : Db) → Effect s (pure []) db (λ n b. b)
skip s db = record {
  rows = rows_of db;
  clock = db.tick;
  runs = refl;
  own = λ n. refl;
  others = λ s' n h. refl;
  keeps = λ n h. h;
}

module _ (store : PlanNodeStore) (laws : StoreLaws store) (aborts : Error → Bool) (s : ℕ) where
  pub set-Effect :
      (n : ℕ) (st : SyncStatus) (db : Db)
      → IsCalm db
      → any_of (has_key s n) (rows_of db) ≡ true
      → Effect s
          (report aborts (store.set_node_status s n st))
          db
          (λ m b. if n == m then map_row (set_status st) b else b)
  set-Effect n st db calm h = record {
    rows = update_if (has_key s n) (set_status st) (rows_of db);
    clock = suc db.tick;
    runs = report_ok aborts (store.set_node_status s n st) db (laws.sets s n st db calm h);
    own = λ m. ground (arith, binding-set_status s m s n st (rows_of db));
    others = λ s' m k. ground (arith, binding-set_status s' m s n st (rows_of db));
    keeps = λ m. any_of-update s m s n st (rows_of db);
  }

  pub upsert-Effect :
      (n : ℕ) (db : Db)
      → IsCalm db
      → Effect s
          (report aborts (store.upsert_pending_add (fresh_row s n)))
          db
          (λ m b. if n == m then or_fresh s m b else b)
  upsert-Effect n db calm = record {
    rows = upsert_row (fresh_row s n) (rows_of db);
    clock = suc db.tick;
    runs =
        report_ok aborts (store.upsert_pending_add (fresh_row s n)) db (laws.upserts s n db calm);
    own = λ m. ground (arith, binding-upsert s m s n (rows_of db));
    others = λ s' m k. ground (arith, binding-upsert s' m s n (rows_of db));
    keeps = λ m. any_of-merge s m s n (rows_of db);
  }
