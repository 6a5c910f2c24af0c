-- ===== src/Database/Broadcasts/Mutations.antt =====
-- What each mutation of the recipients' state does to a snapshot that was taken.
use rs8kvn_bot.Common.{
  ℕ, zero, suc, ◌≡◌, refl, sym, arith, true, List, [], ◌∷◌, ◌==◌, Bool-cases, inl, inr, update_if,
}
use rs8kvn_bot.Common.Int.{ℤ}
use rs8kvn_bot.Common.Text.{Text}
use rs8kvn_bot.Database.Models.{Time, Recipient, RecipientStatus, RecipientState, BroadcastStatus}
use rs8kvn_bot.Database.Monad.{Result, ok, err}
use rs8kvn_bot.Database.Broadcasts.{Mutation, is_running}
use rs8kvn_bot.Database.Broadcasts.Recipients.{
  take_snapshot, recover_stale, is_stale, release_lease, claim_batch, claim_pending, lease,
  on_lease, change_lease, keep_head, is_leased, is_terminal, finish_with, at_chunk, is_pending,
  is_sending, is_failed, may_retry, retry, with_recipients,
}
use rs8kvn_bot.Database.Broadcasts.Evolves.{
  Evolves, AllEvolve, AllEvolve-refl, AllEvolve-update_if, Evolves-refl, StateEvolves, is_settled,
}

-- A mutation that succeeds lets the recipients of a snapshot evolve.
abbrev pub IsGentle : {A : Type 0} → Mutation A → Type 0
IsGentle {A} mutate =
    (status : BroadcastStatus) (st : RecipientState) (a : A) (st' : RecipientState)
    → mutate status st ≡ ok (a, st')
    → st.snapshot ≡ true
    → StateEvolves st st'

pub take_snapshot-IsGentle : (ids : List ℤ) (now : Time) → IsGentle (take_snapshot ids now)
unfolding take_snapshot
take_snapshot-IsGentle ids now status st a st' h t =
    let same : st ≡ st' = ground arith in
    rw (sym same) (record { taken = t; all = AllEvolve-refl st.recipients })

unsettled : (s : RecipientStatus) → is_sending s ≡ true → is_settled s ≡ true → ⊥
unsettled RecipientStatus.sending h k = cc
unsettled _ h k = cc

pending_unsettled : (s : RecipientStatus) → is_pending s ≡ true → is_settled s ≡ true → ⊥
pending_unsettled RecipientStatus.pending h k = cc
pending_unsettled _ h k = cc

failed_unsettled : (s : RecipientStatus) → is_failed s ≡ true → is_settled s ≡ true → ⊥
failed_unsettled RecipientStatus.failed h k = cc
failed_unsettled _ h k = cc

terminal_not_sending : (s : RecipientStatus) → is_terminal s ≡ true → is_sending s ≡ true → ⊥
terminal_not_sending RecipientStatus.sending h k = cc
terminal_not_sending _ h k = cc

release-Evolves :
    (before now : Time) (r : Recipient) → is_stale before r ≡ true → Evolves r (release_lease now r)
release-Evolves before now r h = record {
  same_id = refl;
  same_user = refl;
  attempts_grow = omega arith;
  lease_ends = λ e s. cc;
  settled = λ s. absurd (unsettled r.status (ground arith) s);
}

pub retry-Evolves : (now : Time) (r : Recipient) → may_retry r ≡ true → Evolves r (retry now r)
retry-Evolves now r h = record {
  same_id = refl;
  same_user = refl;
  attempts_grow = omega arith;
  lease_ends = λ e s. cc;
  settled = λ s. elim (Bool-cases (is_failed r.status)) [
    | inl failed ↦ absurd (failed_unsettled r.status failed s)
    | inr other ↦ absurd (unsettled r.status (ground arith) s)
  ];
}

lease-Evolves : (now : Time) (r : Recipient) → is_pending r.status ≡ true → Evolves r (lease now r)
lease-Evolves now r h = record {
  same_id = refl;
  same_user = refl;
  attempts_grow = omega arith;
  lease_ends = λ e s. absurd (omega (arith, e));
  settled = λ s. absurd (pending_unsettled r.status h s);
}

pub finish-Evolves :
    (status : RecipientStatus) (last_error : Text) (now : Time)
    → is_terminal status ≡ true
    → (attempts : ℕ) (r : Recipient) → is_leased attempts r ≡ true
    → Evolves r (finish_with status last_error now r)
finish-Evolves status last_error now t attempts r h = record {
  same_id = refl;
  same_user = refl;
  attempts_grow = omega arith;
  lease_ends = λ e s. absurd (terminal_not_sending status t s);
  settled = λ s. absurd (unsettled r.status (ground arith) s);
}

pub at_chunk-Evolves :
    (next_chunk : ℕ) (now : Time) (r : Recipient) → Evolves r (at_chunk next_chunk now r)
at_chunk-Evolves next_chunk now r = record {
  same_id = refl;
  same_user = refl;
  attempts_grow = omega arith;
  lease_ends = λ e s. s;
  settled = λ s. refl;
}

pub recover_stale-IsGentle : (before now : Time) → IsGentle (recover_stale before now)
unfolding recover_stale
recover_stale-IsGentle before now status st a st' h t =
    let same : record st {
      recipients = update_if (is_stale before) (release_lease now) st.recipients;
    }
        ≡ st' =
      ground arith in
    rw (sym same) (record {
      taken = t;
      all =
          AllEvolve-update_if (is_stale before) (release_lease now) (release-Evolves before now)
            st.recipients;
    })

claim_batch-AllEvolve :
    (now : Time) (room : ℕ) (rs : List Recipient) → AllEvolve rs (claim_batch now room rs).1
unfolding claim_batch
claim_batch-AllEvolve now zero rs = AllEvolve-refl rs
claim_batch-AllEvolve now (suc room) [] = tt
claim_batch-AllEvolve now (suc room) (r ∷ rs) = elim (Bool-cases (is_pending r.status)) [
  | inl free ↦ rw free (lease-Evolves now r free, claim_batch-AllEvolve now room rs)
  | inr taken ↦ rw taken (Evolves-refl r, claim_batch-AllEvolve now (suc room) rs)
]

pub claim_pending-IsGentle : (now : Time) (limit : ℕ) → IsGentle (claim_pending now limit)
unfolding claim_pending
claim_pending-IsGentle now limit status st a st' h t = elim (Bool-cases (is_running status)) [
  | inl running ↦
      let same : record st { recipients = (claim_batch now limit st.recipients).1 } ≡ st' =
        ground arith in
      rw (sym same) (record { taken = t; all = claim_batch-AllEvolve now limit st.recipients })
  | inr stopped ↦
      let same : st ≡ st' = ground arith in
      rw (sym same) (record { taken = t; all = AllEvolve-refl st.recipients })
]

module _ (id attempts : ℕ) (f : Recipient → Recipient)
    (evolves : (r : Recipient) → is_leased attempts r ≡ true → Evolves r (f r)) where
  on_lease-AllEvolve :
      (rs rs' : List Recipient) → on_lease id attempts f rs ≡ ok rs' → AllEvolve rs rs'
  unfolding on_lease
  on_lease-AllEvolve [] rs' h = cc
  on_lease-AllEvolve (r ∷ rs) rs' h = elim (Bool-cases (r.id == id)) [
    | inl here ↦ elim (Bool-cases (is_leased attempts r)) [
      | inl leased ↦
          let same : f r ∷ rs ≡ rs' = ground arith in
          rw (sym same) (evolves r leased, AllEvolve-refl rs)
      | inr ended ↦ absurd (ground arith)
    ]
    | inr other ↦
        behind (λ ys. on_lease-AllEvolve rs ys) (on_lease id attempts f rs) refl (ground arith)
  ]
    where
      behind :
          ((ys : List Recipient) → on_lease id attempts f rs ≡ ok ys → AllEvolve rs ys)
          → (x : Result (List Recipient)) → on_lease id attempts f rs ≡ x
          → keep_head r x ≡ ok rs'
          → AllEvolve (r ∷ rs) rs'
      behind ih (err e) k k' = cc
      behind ih (ok ys) k k' =
          let same : r ∷ ys ≡ rs' = ground arith in rw (sym same) (Evolves-refl r, ih ys k)

  pub change_lease-IsGentle : IsGentle (change_lease id attempts f)
  unfolding change_lease
  change_lease-IsGentle status st a st' h t =
      by_result (on_lease id attempts f st.recipients) refl h
    where
      by_result :
          (x : Result (List Recipient))
          → on_lease id attempts f st.recipients ≡ x
          → with_recipients st x ≡ ok (a, st')
          → StateEvolves st st'
      by_result (err e) k k' = cc
      by_result (ok rs) k k' =
          let same : record st { recipients = rs } ≡ st' = ground arith in
          rw (sym same) (record { taken = t; all = on_lease-AllEvolve st.recipients rs k })
