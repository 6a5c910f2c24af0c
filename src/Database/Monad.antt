-- ===== src/Database/Monad.antt =====
-- Statements and transactions over the tables. Each statement may fail, for a reason that the
-- database or the context has: `faults` says which statement of the run does, so a theorem for
-- every `faults` holds whichever statements fail. A transaction that fails leaves the tables as
-- it found them. `==` of GORM errors is `errors.Is`: a wrapped error is the error it wraps.
pub mod Runs
use rs8kvn_bot.Common.{
  ℕ, suc, ◌≡◌, refl, Bool, true, false, Option, none, some, List, ◌∷◌, ◌++◌, [],
}
use rs8kvn_bot.Database.Models.{
  Subscription, Node, Plan, PlanNode, Product, Order, SubscriptionNode, AuditLog, Broadcast, Invite,
  TrialRequest,
}

pub record Tables : Type 0 where
  pub orders : List Order
  pub subscriptions : List Subscription
  pub products : List Product
  pub plans : List Plan
  pub nodes : List Node
  pub plan_nodes : List PlanNode
  pub subscription_nodes : List SubscriptionNode
  pub audit_log : List AuditLog
  pub next_order_id : ℕ
  pub broadcasts : List Broadcast
  pub invites : List Invite
  pub trial_requests : List TrialRequest
  pub next_subscription_id : ℕ

-- Why a statement failed: the database, or the caller's context.
pub data Fault : Type 0 where
  broken canceled : Fault

pub data Error : Type 0 where
  fault : Fault → Error
  subscription_not_found order_not_found product_not_found plan_not_found : Error
  subscription_node_not_found node_not_found unique_constraint constraint_failed state_changed :
      Error
  payment_disabled amount_mismatch currency_mismatch invalid_payment_transition : Error
  payment_sync_not_ready chargeback_path_not_ready invalid_provider_id invalid_amount : Error
  provider_error record_not_found nil_subscription product_immutable lock_not_acquired : Error
  payment_already_in_progress payment_creation_uncertain invalid_request plan_inactive : Error
  broadcast_not_found recipient_stale recipient_not_found invalid_recipient_status invalid_json :
      Error
  trial_already_activated not_a_trial telegram_error : Error

pub record Db : Type 0 where
  pub tables : Tables
  pub faults : ℕ → Option Fault
  pub tick : ℕ

pub data Result {ℓ} (A : Type ℓ) : Type ℓ where
  ok : A → Result A
  err : Error → Result A

abbrev pub M : Type 0 → Type 0
M A = Db → Result A × Db

module _ {A : Type 0} where
  abbrev pub pure : A → M A
  pure a db = (ok a, db)

  abbrev pub raise : Error → M A
  raise e db = (err e, db)

  abbrev pub or_raise : Option A → Error → M A
  or_raise none e = raise e
  or_raise (some a) e = pure a

infixl 5 ◌>>=◌ ◌>>◌
abbrev pub ◌>>=◌ : {A B : Type 0} → M A → (A → M B) → M B
◌>>=◌ m f db = let (r, db') = m db in elim r [ ok a ↦ f a db' | err e ↦ (err e, db') ]

abbrev pub ◌>>◌ : {B : Type 0} → M (Unit {0}) → M B → M B
m >> k = m >>= λ _. k

-- the clock of the statements
abbrev pub advance : Db → Db
advance db = record db { tick = suc db.tick }

-- One statement: it fails and changes nothing, or acts on the tables.
abbrev pub statement : {A : Type 0} → (Tables → Result A × Tables) → M A
statement act db = elim (db.faults db.tick) [
  | none ↦ let (r, t) = act db.tables in (r, record db { tables = t; tick = suc db.tick })
  | some f ↦ (err (fault f), advance db)
]

-- SELECT
abbrev pub query : {A : Type 0} → (Tables → A) → M A
query f = statement (λ t. (ok (f t), t))

-- INSERT or UPDATE that violates no constraint
abbrev pub execute : (Tables → Tables) → M (Unit {0})
execute f = statement (λ t. (ok tt, f t))

-- What ROLLBACK leaves: the tables of before, and the statements already run.
abbrev pub rolled_back : Db → Db → Db
rolled_back before after = record after { tables = before.tables }

-- COMMIT is a statement too.
abbrev pub commit : {A : Type 0} → Db → A → Db → Result A × Db
commit before a db = elim (db.faults db.tick) [
  | none ↦ (ok a, advance db)
  | some f ↦ (err (fault f), rolled_back before (advance db))
]

-- How a transaction ends: by COMMIT, or by ROLLBACK.
abbrev pub finish : {A : Type 0} → Db → Result A × Db → Result A × Db
finish before (ok a, db) = commit before a db
finish before (err e, db) = (err e, rolled_back before db)

-- db.Transaction(func(tx) error { ... })
unfoldable pub transaction : {A : Type 0} → M A → M A
transaction body db = finish db (body db)

-- insertAuditLogBestEffort: an error of the log is dropped.
abbrev pub best_effort : M (Unit {0}) → M (Unit {0})
best_effort m db = (ok tt, (m db).1)

abbrev pub insert_audit_log : AuditLog → M (Unit {0})
insert_audit_log e = execute (λ t. record t { audit_log = t.audit_log ++ (e ∷ []) })

abbrev pub is_ok {ℓ} : {A : Type ℓ} → Result A → Bool
is_ok (ok a) = true
is_ok (err e) = false

-- No statement of the run fails.
abbrev pub IsCalm : Db → Type 0
IsCalm db = (n : ℕ) → db.faults n ≡ none

pub ok_value {ℓ} : {A : Type ℓ} (r : Result A) → is_ok r ≡ true → (a : A) × (r ≡ ok a)
ok_value (ok a) h = (a, refl)
ok_value (err e) h = cc
