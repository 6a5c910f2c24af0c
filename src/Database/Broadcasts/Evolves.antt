-- ===== src/Database/Broadcasts/Evolves.antt =====
-- Recipients over time: what no operation of the store undoes.
use rs8kvn_bot.Common.{
  ℕ, ◌≤◌, ◌≡◌, refl, arith, ◌∙◌, Bool, true, false, Option, none, some, List, [], ◌∷◌, find,
  update_if, Bool-cases, inl, inr,
}
use rs8kvn_bot.Database.Models.{Broadcast, Recipient, RecipientStatus, RecipientState}
use rs8kvn_bot.Database.Broadcasts.{has_id}
use rs8kvn_bot.Database.Broadcasts.Recipients.{is_sending}

-- the message was delivered, or cannot be
abbrev pub is_settled : RecipientStatus → Bool
is_settled RecipientStatus.sent = true
is_settled RecipientStatus.blocked = true
is_settled RecipientStatus.unreachable = true
is_settled _ = false

-- A recipient keeps its id and its user; the attempts do not fall; a lease that has ended stays
-- ended, since a new one counts a new attempt; and a settled recipient keeps its status.
pub record Evolves (r r' : Recipient) : Type 0 where
  pub same_id : r'.id ≡ r.id
  pub same_user : r'.telegram_id ≡ r.telegram_id
  pub attempts_grow : r.attempts ≤ r'.attempts
  pub lease_ends :
      r'.attempts ≡ r.attempts → is_sending r'.status ≡ true → is_sending r.status ≡ true
  pub settled : is_settled r.status ≡ true → r'.status ≡ r.status

pub Evolves-refl : (r : Recipient) → Evolves r r
Evolves-refl r = record {
  same_id = refl;
  same_user = refl;
  attempts_grow = omega arith;
  lease_ends = λ e h. h;
  settled = λ h. refl;
}

Evolves-trans : (a b c : Recipient) → Evolves a b → Evolves b c → Evolves a c
Evolves-trans a b c h k = record {
  same_id = k.same_id ∙ h.same_id;
  same_user = k.same_user ∙ h.same_user;
  attempts_grow = omega (arith, h.attempts_grow, k.attempts_grow);
  lease_ends = λ e s.
      let back : b.attempts ≡ a.attempts = omega (arith, h.attempts_grow, k.attempts_grow) in
      h.lease_ends back (k.lease_ends (omega arith) s);
  settled = λ s. let same = h.settled s in k.settled (rw same s) ∙ same;
}

-- Recipient by recipient.
abbrev pub AllEvolve : List Recipient → List Recipient → Type 0
AllEvolve [] [] = Unit
AllEvolve [] (y ∷ ys) = ⊥
AllEvolve (x ∷ xs) [] = ⊥
AllEvolve (x ∷ xs) (y ∷ ys) = Evolves x y × AllEvolve xs ys

pub AllEvolve-refl : (rs : List Recipient) → AllEvolve rs rs
AllEvolve-refl [] = tt
AllEvolve-refl (r ∷ rs) = (Evolves-refl r, AllEvolve-refl rs)

AllEvolve-trans : (xs ys zs : List Recipient) → AllEvolve xs ys → AllEvolve ys zs → AllEvolve xs zs
AllEvolve-trans [] [] [] h k = tt
AllEvolve-trans [] [] (z ∷ zs) h k = k
AllEvolve-trans [] (y ∷ ys) zs h k = absurd h
AllEvolve-trans (x ∷ xs) [] zs h k = absurd h
AllEvolve-trans (x ∷ xs) (y ∷ ys) [] h k = k
AllEvolve-trans (x ∷ xs) (y ∷ ys) (z ∷ zs) h k =
    (Evolves-trans x y z h.0 k.0, AllEvolve-trans xs ys zs h.1 k.1)

pub AllEvolve-update_if :
    (p : Recipient → Bool) (f : Recipient → Recipient)
    → ((r : Recipient) → p r ≡ true → Evolves r (f r))
    → (rs : List Recipient) → AllEvolve rs (update_if p f rs)
AllEvolve-update_if p f h [] = tt
AllEvolve-update_if p f h (r ∷ rs) = (
  elim (Bool-cases (p r)) [
    | inl passes ↦ rw passes (h r passes)
    | inr fails ↦ rw fails (Evolves-refl r)
  ],
  AllEvolve-update_if p f h rs,
)

-- A snapshot, once taken, stays; its recipients evolve.
pub record StateEvolves (st st' : RecipientState) : Type 0 where
  pub taken : st'.snapshot ≡ true
  pub all : AllEvolve st.recipients st'.recipients

-- The state of a broadcast's recipients in the table.
abbrev pub state_of : ℕ → List Broadcast → Option RecipientState
state_of id bs = elim (find (has_id id) bs) [ none ↦ none | some b ↦ b.recipients_state ]

-- Every snapshot in the one table is in the other, evolved.
abbrev pub TableEvolves : List Broadcast → List Broadcast → Type 0
TableEvolves bs bs' =
    (id : ℕ) (st : RecipientState)
    → state_of id bs ≡ some st
    → st.snapshot ≡ true
    → (st' : RecipientState) × (state_of id bs' ≡ some st') × StateEvolves st st'

pub StateEvolves-trans :
    (a b c : RecipientState) → StateEvolves a b → StateEvolves b c → StateEvolves a c
StateEvolves-trans a b c h k = record {
  taken = k.taken;
  all = AllEvolve-trans a.recipients b.recipients c.recipients h.all k.all;
}

pub TableEvolves-trans :
    (xs ys zs : List Broadcast) → TableEvolves xs ys → TableEvolves ys zs → TableEvolves xs zs
TableEvolves-trans xs ys zs h k id st e t =
    let (st', e', s) = h id st e t in
    let (st'', e'', s') = k id st' e' s.taken in (st'', e'', StateEvolves-trans st st' st'' s s')

pub TableEvolves-refl : (bs : List Broadcast) → TableEvolves bs bs
TableEvolves-refl bs id st e t = (st, e, record { taken = t; all = AllEvolve-refl st.recipients })
