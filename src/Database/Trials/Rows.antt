-- ===== src/Database/Trials/Rows.antt =====
-- Trials: what each operation does to the subscriptions, whichever statements fail.
use rs8kvn_bot.Common.{
  ℕ, suc, ◌≡◌, refl, arith, not, String, List, [], ◌∷◌, ◌++◌, find, select, update_if, any_of,
  str_eq, ◌∙◌, Bool-cases, Option-cases, inl, inr,
}
use rs8kvn_bot.Database.Models.{Time, Subscription, AuditLog}
use rs8kvn_bot.Database.Monad.{Db, M, insert_audit_log}
use rs8kvn_bot.Database.Trials.{
  new_trial, conflicts, create_trial_subscription, resolve_trial_plan_id, trial_plan_name,
}
use rs8kvn_bot.Database.Trials.Cleanup.{
  may_expire, is_old_trial, expire_row, is_claimed, has_bindings, without, claim_expired_trials,
  delete_claimed_trial, cleanup_expired_trials, audit_deletions,
}
use rs8kvn_bot.Database.Trials.Keeps.{
  Keeps, Keeps-same, new_trial-unbound, inserted-Keeps, updated-Keeps, deleted-Keeps,
}

-- the subscriptions that an operation leaves
abbrev pub rows : {A : Type 0} → M A → Db → List Subscription
rows m db = (m db).1.tables.subscriptions

pub create-Keeps :
    (invite_code subscription_id client_id : String) (expiry now : Time) (db : Db)
    → Keeps db.tables.subscriptions
        (rows (create_trial_subscription invite_code subscription_id client_id expiry now) db)
unfolding create_trial_subscription resolve_trial_plan_id
create-Keeps invite_code subscription_id client_id expiry now db =
    elim (Option-cases (db.faults db.tick)) [
      | inr failed ↦ Keeps-same (ground arith)
      | inl works ↦
          elim (Option-cases (find (λ p. str_eq p.name trial_plan_name) db.tables.plans)) [
            | inl missing ↦ Keeps-same (ground arith)
            | inr (plan, found) ↦ elim (Option-cases (db.faults (suc db.tick))) [
              | inr failed ↦ Keeps-same (ground arith)
              | inl inserts ↦
                  let new =
                    new_trial invite_code subscription_id client_id expiry now plan.id
                      db.tables.next_subscription_id in
                  let ss = db.tables.subscriptions in
                  elim (Bool-cases (any_of (conflicts new) ss)) [
                    | inl clash ↦ Keeps-same (ground arith)
                    | inr fresh ↦
                        let done : rows
                              (create_trial_subscription invite_code subscription_id client_id
                                expiry now)
                              db
                            ≡ ss ++ (new ∷ []) =
                          ground arith in
                        rw done (
                          inserted-Keeps new ss
                            (new_trial-unbound invite_code subscription_id client_id expiry now
                              plan.id db.tables.next_subscription_id)
                            fresh)
                  ]
            ]
          ]
    ]

pub claim-Keeps :
    (hours : ℕ) (now : Time) (db : Db)
    → Keeps db.tables.subscriptions (rows (claim_expired_trials hours now) db)
unfolding claim_expired_trials
claim-Keeps hours now db = elim (Option-cases (db.faults db.tick)) [
  | inr failed ↦ Keeps-same (ground arith)
  | inl works ↦ elim (Option-cases (find (λ p. str_eq p.name trial_plan_name) db.tables.plans)) [
    | inl missing ↦ Keeps-same (ground arith)
    | inr (plan, found) ↦ elim (Option-cases (db.faults (suc db.tick))) [
      | inr failed ↦ Keeps-same (ground arith)
      | inl writes ↦
          let ss = db.tables.subscriptions in
          let p = may_expire plan.id hours now in
          let done : rows (claim_expired_trials hours now) db ≡ update_if p expire_row ss =
            ground arith in
          rw done (updated-Keeps p expire_row ss (λ s h. ground arith) (λ s. refl))
    ]
  ]
]

pub delete-Keeps :
    (id : ℕ) (db : Db) → Keeps db.tables.subscriptions (rows (delete_claimed_trial id) db)
unfolding delete_claimed_trial
delete-Keeps id db = elim (Option-cases (db.faults db.tick)) [
  | inr failed ↦ Keeps-same (ground arith)
  | inl works ↦ elim (Option-cases (find (λ p. str_eq p.name trial_plan_name) db.tables.plans)) [
    | inl missing ↦ Keeps-same (ground arith)
    | inr (plan, found) ↦ elim (Option-cases (db.faults (suc db.tick))) [
      | inr failed ↦ Keeps-same (ground arith)
      | inl writes ↦
          let ss = db.tables.subscriptions in
          let p = is_claimed id plan.id in
          elim (Bool-cases (has_bindings p db.tables)) [
            | inl refused ↦ Keeps-same (ground arith)
            | inr free ↦
                let done : rows (delete_claimed_trial id) db ≡ select (λ s. not (p s)) ss =
                  ground arith in
                rw done (deleted-Keeps p ss (λ s h. ground arith))
          ]
    ]
  ]
]

audits_keep :
    (ss : List Subscription) (db : Db)
    → (audit_deletions ss db).1.tables.subscriptions ≡ db.tables.subscriptions
audits_keep [] db = refl
audits_keep (s ∷ ss) db =
    let db' = (insert_audit_log (AuditLog.trial_deleted s) db).1 in
    let kept : db'.tables.subscriptions ≡ db.tables.subscriptions = ground arith in
    audits_keep ss db' ∙ kept

pub cleanup-Keeps :
    (hours : ℕ) (now : Time) (db : Db)
    → Keeps db.tables.subscriptions (rows (cleanup_expired_trials hours now) db)
unfolding cleanup_expired_trials
cleanup-Keeps hours now db = elim (Option-cases (db.faults db.tick)) [
  | inr failed ↦ Keeps-same (ground arith)
  | inl works ↦ elim (Option-cases (find (λ p. str_eq p.name trial_plan_name) db.tables.plans)) [
    | inl missing ↦ Keeps-same (ground arith)
    | inr (plan, found) ↦ elim (Option-cases (db.faults (suc db.tick))) [
      | inr failed ↦ Keeps-same (ground arith)
      | inl writes ↦
          let ss = db.tables.subscriptions in
          let t = db.tables in
          let p = is_old_trial plan.id hours now in
          let mid : Db = record db { tables = without p t; tick = suc (suc db.tick) } in
          elim (Bool-cases (has_bindings p t)) [
            | inl refused ↦ Keeps-same (ground arith)
            | inr free ↦
                let done : rows (cleanup_expired_trials hours now) db ≡ select (λ s. not (p s)) ss =
                  ground (arith, audits_keep (select p ss) mid) in
                rw done (deleted-Keeps p ss (λ s h. ground arith))
          ]
    ]
  ]
]
