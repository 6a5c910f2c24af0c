-- ===== src/Database/Broadcasts/Leases.antt =====
-- A lease of a recipient ends once: its worker cannot finish the recipient again.
use rs8kvn_bot.Common.{
  ℕ, ◌≡◌, ◌≢◌, refl, sym, arith, Bool, true, false, not, ◌&&◌, some, List, [], ◌∷◌, ◌==◌, leb,
  find-pass, Bool-cases, inl, inr, if◌then◌else◌,
}
use rs8kvn_bot.Common.Text.{Text}
use rs8kvn_bot.Database.Models.{Time, Broadcast, Recipient, RecipientStatus, RecipientState}
use rs8kvn_bot.Database.Monad.{Db, Result, ok, err}
use rs8kvn_bot.Database.Broadcasts.{has_id, set_state, update_broadcast_recipient_state}
use rs8kvn_bot.Database.Broadcasts.Recipients.{
  on_lease, keep_head, is_leased, with_recipients, change_lease, is_terminal, finish_with,
  finish_broadcast_recipient, at_chunk, update_broadcast_recipient_progress,
}
use rs8kvn_bot.Database.Broadcasts.Evolves.{Evolves, AllEvolve, state_of}
use rs8kvn_bot.Database.Broadcasts.Runs.{after, find-update_if, update_state-Written}
use rs8kvn_bot.Database.Broadcasts.Histories.{Reach, broadcast_lifecycle}

-- The recipient is past the attempt: in a later one, or in this one and no longer being sent to.
abbrev pub is_past : ℕ → Recipient → Bool
is_past attempts r = leb attempts r.attempts && not (is_leased attempts r)

abbrev pub lease_over : ℕ → ℕ → List Recipient → Bool
lease_over id attempts [] = true
lease_over id attempts (r ∷ rs) =
    let rest = lease_over id attempts rs in if r.id == id then is_past attempts r else rest

Evolves-is_past :
    (attempts : ℕ) (r r' : Recipient)
    → Evolves r r'
    → is_past attempts r ≡ true
    → is_past attempts r' ≡ true
Evolves-is_past attempts r r' e h = elim (Bool-cases (is_leased attempts r')) [
  | inl live ↦ absurd (ground (arith, e.attempts_grow, e.lease_ends))
  | inr over ↦ ground (arith, e.attempts_grow)
]

AllEvolve-lease_over :
    (id attempts : ℕ) (rs rs' : List Recipient)
    → AllEvolve rs rs'
    → lease_over id attempts rs ≡ true
    → lease_over id attempts rs' ≡ true
AllEvolve-lease_over id attempts [] [] e h = refl
AllEvolve-lease_over id attempts [] (y ∷ ys) e h = absurd e
AllEvolve-lease_over id attempts (x ∷ xs) [] e h = absurd e
AllEvolve-lease_over id attempts (x ∷ xs) (y ∷ ys) e h =
    let same = e.0.same_id in
    ground (arith, Evolves-is_past attempts x y e.0, AllEvolve-lease_over id attempts xs ys e.1)

-- The guard refuses a lease that is over.
on_lease-over :
    (id attempts : ℕ) (f : Recipient → Recipient) (rs rs' : List Recipient)
    → lease_over id attempts rs ≡ true
    → on_lease id attempts f rs ≢ ok rs'
unfolding on_lease
on_lease-over id attempts f [] rs' h k = cc
on_lease-over id attempts f (r ∷ rs) rs' h k = elim (Bool-cases (r.id == id)) [
  | inl here ↦ ground arith
  | inr other ↦
      behind (λ ys. on_lease-over id attempts f rs ys (ground arith)) (on_lease id attempts f rs)
        refl (ground arith)
]
  where
    behind :
        ((ys : List Recipient) → on_lease id attempts f rs ≢ ok ys)
        → (x : Result (List Recipient)) → on_lease id attempts f rs ≡ x
        → keep_head r x ≢ ok rs'
    behind ih (err e) l l' = cc
    behind ih (ok ys) l l' = ih ys l

-- A finish that passes the guard ends the lease.
on_lease-ends :
    (id attempts : ℕ) (f : Recipient → Recipient) (rs rs' : List Recipient)
    → ((r : Recipient) → is_leased attempts r ≡ true → is_past attempts (f r) ≡ true)
    → ((r : Recipient) → (f r).id ≡ r.id)
    → on_lease id attempts f rs ≡ ok rs'
    → lease_over id attempts rs' ≡ true
unfolding on_lease
on_lease-ends id attempts f [] rs' ends same k = cc
on_lease-ends id attempts f (r ∷ rs) rs' ends same k = elim (Bool-cases (r.id == id)) [
  | inl here ↦ elim (Bool-cases (is_leased attempts r)) [
    | inl leased ↦
        let done : f r ∷ rs ≡ rs' = ground arith in
        rw (sym done) (ground (arith, same r, ends r leased))
    | inr ended ↦ absurd (ground arith)
  ]
  | inr other ↦
      behind other (λ ys. on_lease-ends id attempts f rs ys ends same) (on_lease id attempts f rs)
        refl (ground arith)
]
  where
    behind :
        (r.id == id) ≡ false
        → ((ys : List Recipient)
            → on_lease id attempts f rs ≡ ok ys
            → lease_over id attempts ys ≡ true)
        → (x : Result (List Recipient)) → on_lease id attempts f rs ≡ x
        → keep_head r x ≡ ok rs'
        → lease_over id attempts rs' ≡ true
    behind other ih (err e) l l' = cc
    behind other ih (ok ys) l l' =
        let done : r ∷ ys ≡ rs' = ground arith in rw (sym done) (ground (arith, ih ys l))

terminal-is_past :
    (attempts : ℕ) (status : RecipientStatus) (last_error : Text) (now : Time) (r : Recipient)
    → is_terminal status ≡ true
    → is_leased attempts r ≡ true
    → is_past attempts (finish_with status last_error now r) ≡ true
terminal-is_past attempts RecipientStatus.pending e now r t h = cc
terminal-is_past attempts RecipientStatus.sending e now r t h = cc
terminal-is_past attempts RecipientStatus.sent e now r t h = ground arith
terminal-is_past attempts RecipientStatus.blocked e now r t h = ground arith
terminal-is_past attempts RecipientStatus.unreachable e now r t h = ground arith
terminal-is_past attempts RecipientStatus.failed e now r t h = ground arith

-- The mutation of a finish or of a progress, inverted.
changed :
    (id attempts : ℕ) (f : Recipient → Recipient) (st new : RecipientState)
    → (x : Result (List Recipient)) → with_recipients st x ≡ ok (tt, new)
    → (rs : List Recipient) × (x ≡ ok rs) × (new ≡ record st { recipients = rs })
changed id attempts f st new (err e) h = cc
changed id attempts f st new (ok rs) h = (rs, refl, ground arith)

module _ (broadcast_id id attempts : ℕ) where
  abbrev Over : List Broadcast → Type 0
  Over bs =
      (st : RecipientState) × (state_of broadcast_id bs ≡ some st)
      × (st.snapshot ≡ true)
      × (lease_over id attempts st.recipients ≡ true)

  Over-refuses :
      (f : Recipient → Recipient) (db : Db)
      → Over db.tables.broadcasts
      → (update_broadcast_recipient_state broadcast_id (change_lease id attempts f) db).0 ≢ ok tt
  unfolding change_lease
  Over-refuses f db (st, here, taken, over) h =
      let w = update_state-Written broadcast_id (change_lease id attempts f) db tt h in
      let same : w.old ≡ st = ground (arith, w.found, w.column) in
      let (rs, k, e) =
        changed id attempts f w.old w.new (on_lease id attempts f w.old.recipients) w.mutated in
      on_lease-over id attempts f w.old.recipients rs (rw same over) k

  finish-Over :
      (status : RecipientStatus) (last_error : Text) (now : Time) (db : Db)
      → ((st : RecipientState)
          → state_of broadcast_id db.tables.broadcasts ≡ some st
          → st.snapshot ≡ true)
      → (finish_broadcast_recipient broadcast_id id attempts status last_error now db).0 ≡ ok tt
      → Over (after (finish_broadcast_recipient broadcast_id id attempts status last_error now) db)
  unfolding finish_broadcast_recipient change_lease
  finish-Over status last_error now db taken h = elim (Bool-cases (is_terminal status)) [
    | inr wrong ↦ absurd (ground arith)
    | inl terminal ↦
        let f = finish_with status last_error now in
        let w =
          update_state-Written broadcast_id (change_lease id attempts f) db tt (ground arith) in
        let (rs, k, e) =
          changed id attempts f w.old w.new (on_lease id attempts f w.old.recipients) w.mutated in
        let moved =
          find-update_if broadcast_id (has_id broadcast_id) (set_state w.new) db.tables.broadcasts
            (λ b. refl) in
        let own = find-pass (has_id broadcast_id) db.tables.broadcasts w.row w.found in
        let over =
          on_lease-ends id attempts f w.old.recipients rs
            (λ r. terminal-is_past attempts status last_error now r terminal) (λ r. refl) k in
        (
          w.new,
          ground (arith, w.found, w.written),
          ground (arith, taken w.old, w.found, w.column),
          rw e over,
        )
  ]

  -- After a finish that succeeded, for a broadcast whose snapshot was taken, and any operations of
  -- the store since, whichever statements failed, no finish and no progress of the same recipient
  -- in the same attempt succeeds, so each attempt to send is finished at most once.
  pub finish_once :
      (status : RecipientStatus) (last_error : Text) (now : Time) (db : Db)
      → ((st : RecipientState)
          → state_of broadcast_id db.tables.broadcasts ≡ some st
          → st.snapshot ≡ true)
      → (finish_broadcast_recipient broadcast_id id attempts status last_error now db).0 ≡ ok tt
      → {cs : List Broadcast}
      → Reach
          (after (finish_broadcast_recipient broadcast_id id attempts status last_error now) db)
          cs
      → (db' : Db) → db'.tables.broadcasts ≡ cs
      → ((status' : RecipientStatus) (last_error' : Text) (now' : Time)
          → (finish_broadcast_recipient broadcast_id id attempts status' last_error' now' db').0
            ≢ ok tt)
        × ((next_chunk : ℕ) (now' : Time)
            → (update_broadcast_recipient_progress broadcast_id id attempts next_chunk now' db').0
              ≢ ok tt)
  unfolding finish_broadcast_recipient update_broadcast_recipient_progress
  finish_once status last_error now db taken h {cs} r db' e =
      let (st, here, t, over) = finish-Over status last_error now db taken h in
      let (st', here', evolves) = broadcast_lifecycle r broadcast_id st here t in
      let over' = AllEvolve-lease_over id attempts st.recipients st'.recipients evolves.all over in
      let ended : Over db'.tables.broadcasts = (st', rw e here', evolves.taken, over') in
      (
        λ status' last_error' now' k. elim (Bool-cases (is_terminal status')) [
          | inr wrong ↦ ground arith
          | inl terminal ↦
              Over-refuses (finish_with status' last_error' now') db' ended (ground arith)
        ],
        λ next_chunk now' k. Over-refuses (at_chunk next_chunk now') db' ended k,
      )
