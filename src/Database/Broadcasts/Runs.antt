-- ===== src/Database/Broadcasts/Runs.antt =====
-- What a run of one operation does to the snapshots in the table, whichever statements fail.
use rs8kvn_bot.Common.{
  ℕ, suc, ◌≡◌, refl, sym, arith, Bool, true, Option, none, some, List, [], ◌∷◌, ◌==◌, find,
  find-pass, ◌∙◌, update_if, ap, Bool-cases, Option-cases, inl, inr, if◌then◌else◌,
}
use rs8kvn_bot.Database.Models.{Broadcast, RecipientState}
use rs8kvn_bot.Database.Monad.{Db, Tables, M, Result, ok, err, transaction, advance}
use rs8kvn_bot.Database.Monad.Runs.{transaction-err, transaction-eq-ok}
use rs8kvn_bot.Database.Broadcasts.{
  Mutation, has_id, set_state, get_broadcast, mutate_state, update_broadcast_recipient_state,
}
use rs8kvn_bot.Database.Broadcasts.Evolves.{
  StateEvolves, AllEvolve-refl, state_of, TableEvolves, TableEvolves-refl,
}
use rs8kvn_bot.Database.Broadcasts.Mutations.{IsGentle}

-- the broadcasts that an operation leaves
abbrev pub after : {A : Type 0} → M A → Db → List Broadcast
after m db = (m db).1.tables.broadcasts

abbrev pub updated :
    (Broadcast → Bool) → (Broadcast → Broadcast) → Option Broadcast → Option Broadcast
updated p f none = none
updated p f (some b) = some (if p b then f b else b)

pub find-update_if :
    (id : ℕ) (p : Broadcast → Bool) (f : Broadcast → Broadcast) (bs : List Broadcast)
    → ((b : Broadcast) → (f b).id ≡ b.id)
    → find (has_id id) (update_if p f bs) ≡ updated p f (find (has_id id) bs)
find-update_if id p f [] keeps = refl
find-update_if id p f (b ∷ bs) keeps = ground (arith, keeps b, find-update_if id p f bs keeps)

pub TableEvolves-same : {bs bs' : List Broadcast} → bs' ≡ bs → TableEvolves bs bs'
TableEvolves-same {bs} e = rw e (TableEvolves-refl bs)

-- A transaction keeps a table or leaves what its body leaves.
pub transaction-TableEvolves :
    {A : Type 0} (body : M A)
    → ((db : Db) → TableEvolves db.tables.broadcasts (after body db))
    → (db : Db) → TableEvolves db.tables.broadcasts (after (transaction body) db)
transaction-TableEvolves {A} body h db = by_result (transaction body db).0 refl
  where
    by_result :
        (r : Result A)
        → (transaction body db).0 ≡ r
        → TableEvolves db.tables.broadcasts (after (transaction body) db)
    by_result (err e) k =
        TableEvolves-same (ap (λ (t : Tables). t.broadcasts) (transaction-err body db k))
    by_result (ok a) k =
        let (db', run, end) = transaction-eq-ok body db k in
        let same : after (transaction body) db ≡ after body db = ground arith in rw same (h db)

-- An update of other columns keeps every state.
pub other_columns :
    (p : Broadcast → Bool) (f : Broadcast → Broadcast) (bs : List Broadcast)
    → ((b : Broadcast) → (f b).id ≡ b.id)
    → ((b : Broadcast) → (f b).recipients_state ≡ b.recipients_state)
    → TableEvolves bs (update_if p f bs)
other_columns p f bs keeps same id st e t =
    let move = find-update_if id p f bs keeps in
    elim (Option-cases (find (has_id id) bs)) [
      | inl missing ↦ absurd (ground arith)
      | inr (b, found) ↦
          (st, ground (arith, same b), record { taken = t; all = AllEvolve-refl st.recipients })
    ]

-- The states of one broadcast evolve, and the others stay.
pub state_updated :
    (i : ℕ) (f : Broadcast → Broadcast) (bs : List Broadcast) (old new : RecipientState)
    → ((b : Broadcast) → (f b).id ≡ b.id)
    → ((b : Broadcast) → (f b).recipients_state ≡ some new)
    → state_of i bs ≡ some old
    → (old.snapshot ≡ true → StateEvolves old new)
    → TableEvolves bs (update_if (has_id i) f bs)
state_updated i f bs old new keeps sets e evolves id st e' t =
    let move = find-update_if id (has_id i) f bs keeps in
    elim (Option-cases (find (has_id id) bs)) [
      | inl missing ↦ absurd (ground arith)
      | inr (b, found) ↦
          let here = find-pass (has_id id) bs b found in
          elim (Bool-cases (i == id)) [
            | inl this ↦
                let i≡id : i ≡ id = ground arith in
                let same : old ≡ st = ground arith in
                (new, ground (arith, sets b), rw (sym same) (evolves (rw same t)))
            | inr other ↦
                (st, ground arith, record { taken = t; all = AllEvolve-refl st.recipients })
          ]
    ]

-- updateBroadcastRecipientState lets a snapshot evolve when its mutation does.
module _ {A : Type 0} (i : ℕ) (mutate : Mutation A) (gentle : IsGentle mutate) where
  mutate_found :
      (db : Db) (b : Broadcast) (st : RecipientState)
      → find (has_id i) db.tables.broadcasts ≡ some b
      → b.recipients_state ≡ some st
      → (r : Result (A × RecipientState)) → mutate b.status st ≡ r
      → db.faults db.tick ≡ none
      → TableEvolves db.tables.broadcasts (after (mutate_state i mutate) db)
  unfolding mutate_state get_broadcast
  mutate_found db b st found column (err e) m fine = TableEvolves-same (ground arith)
  mutate_found db b st found column (ok (a, st')) m fine =
      elim (Option-cases (db.faults (suc db.tick))) [
        | inr failed ↦ TableEvolves-same (ground arith)
        | inl works ↦
            let bs = db.tables.broadcasts in
            let same : after (mutate_state i mutate) db ≡ update_if (has_id i) (set_state st') bs =
              ground arith in
            rw same (
              state_updated i (set_state st') bs st st' (λ b. refl) (λ b. refl) (ground arith)
                (gentle b.status st a st' m))
      ]

  pub mutate_state-TableEvolves :
      (db : Db) → TableEvolves db.tables.broadcasts (after (mutate_state i mutate) db)
  unfolding mutate_state get_broadcast
  mutate_state-TableEvolves db = elim (Option-cases (db.faults db.tick)) [
    | inr failed ↦ TableEvolves-same (ground arith)
    | inl works ↦ elim (Option-cases (find (has_id i) db.tables.broadcasts)) [
      | inl missing ↦ TableEvolves-same (ground arith)
      | inr (b, found) ↦ elim (Option-cases b.recipients_state) [
        | inl broken ↦ TableEvolves-same (ground arith)
        | inr (st, column) ↦ mutate_found db b st found column (mutate b.status st) refl works
      ]
    ]
  ]

  pub update_state-TableEvolves :
      (db : Db)
      → TableEvolves db.tables.broadcasts (after (update_broadcast_recipient_state i mutate) db)
  unfolding update_broadcast_recipient_state
  update_state-TableEvolves db = elim (Option-cases (db.faults db.tick)) [
    | inr failed ↦ TableEvolves-same (ground arith)
    | inl works ↦ elim (Option-cases (db.faults (suc db.tick))) [
      | inr failed ↦ TableEvolves-same (ground arith)
      | inl begins ↦
          let same : after (update_broadcast_recipient_state i mutate) db
              ≡ after (transaction (mutate_state i mutate)) (advance (advance db)) =
            ground arith in
          rw same (
            transaction-TableEvolves (mutate_state i mutate) mutate_state-TableEvolves
              (advance (advance db)))
    ]
  ]

-- A successful run of updateBroadcastRecipientState: what it read, and what it wrote.
pub record Written {A : Type 0} (i : ℕ) (mutate : Mutation A) (db : Db) (a : A) : Type 0 where
  pub row : Broadcast
  pub old : RecipientState
  pub new : RecipientState
  pub found : find (has_id i) db.tables.broadcasts ≡ some row
  pub column : row.recipients_state ≡ some old
  pub mutated : mutate row.status old ≡ ok (a, new)
  pub written :
      after (update_broadcast_recipient_state i mutate) db
      ≡ update_if (has_id i) (set_state new) db.tables.broadcasts

module _ {A : Type 0} (i : ℕ) (mutate : Mutation A) (db : Db) (a : A) where
  body_written :
      (db db' : Db) (b : Broadcast) (st : RecipientState) (r : Result (A × RecipientState))
      → find (has_id i) db.tables.broadcasts ≡ some b
      → b.recipients_state ≡ some st
      → mutate b.status st ≡ r
      → mutate_state i mutate db ≡ (ok a, db')
      → (new : RecipientState) × (r ≡ ok (a, new))
        × (db'.tables.broadcasts ≡ update_if (has_id i) (set_state new) db.tables.broadcasts)
  unfolding mutate_state get_broadcast
  body_written db db' b st (err e) found column m h = absurd (ground arith)
  body_written db db' b st (ok (x, new)) found column m h = (new, ground arith, ground arith)

  body_found :
      (db db' : Db)
      → mutate_state i mutate db ≡ (ok a, db')
      → (b : Broadcast) × (st : RecipientState) × (find (has_id i) db.tables.broadcasts ≡ some b)
        × (b.recipients_state ≡ some st)
  unfolding mutate_state get_broadcast
  body_found db db' h = elim (Option-cases (find (has_id i) db.tables.broadcasts)) [
    | inl missing ↦ absurd (ground arith)
    | inr (b, found) ↦ elim (Option-cases b.recipients_state) [
      | inl broken ↦ absurd (ground arith)
      | inr (st, column) ↦ (b, st, found, column)
    ]
  ]

  begins :
      (update_broadcast_recipient_state i mutate db).0 ≡ ok a
      → update_broadcast_recipient_state i mutate db
        ≡ transaction (mutate_state i mutate) (advance (advance db))
  unfolding update_broadcast_recipient_state
  begins h = ground arith

  -- A transaction on the same table that writes.
  transaction-Written :
      (transaction (mutate_state i mutate) (advance (advance db))).0 ≡ ok a
      → update_broadcast_recipient_state i mutate db
        ≡ transaction (mutate_state i mutate) (advance (advance db))
      → Written i mutate db a
  transaction-Written ran begun =
      let start : Db = advance (advance db) in
      let (db', run, end) = transaction-eq-ok (mutate_state i mutate) start {a = a} ran in
      let (b, st, found, column) = body_found start db' run in
      let (new, mutated, table) =
        body_written start db' b st (mutate b.status st) found column
          (refl {a = mutate b.status st}) run in
      record {
        row = b;
        old = st;
        new = new;
        found = found;
        column = column;
        mutated = mutated;
        written =
            ap (λ (r : Result A × Db). r.1.tables.broadcasts) begun
            ∙ (ap (λ (d : Db). d.tables.broadcasts) end ∙ table);
      }

  pub update_state-Written :
      (update_broadcast_recipient_state i mutate db).0 ≡ ok a → Written i mutate db a
  update_state-Written h =
      let begun = begins h in
      transaction-Written (sym (ap (λ (r : Result A × Db). r.0) begun) ∙ h) begun
