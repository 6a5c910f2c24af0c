-- ===== src/Service/Reminders/Once.antt =====
-- A reminder is sent once for each window of a term.
use rs8kvn_bot.Common.{
  ℕ, ◌≡◌, ◌≢◌, refl, sym, ap, arith, Bool, true, false, not, ◌&&◌, ◌||◌, Option, none, some, List,
  [], ◌∷◌, ◌==◌, count_if, update_if, Bool-cases, Option-cases, inl, inr,
}
use rs8kvn_bot.Common.Int.{pos, eqb_ℤ}
use rs8kvn_bot.Database.Models.{Time, Subscription, ReminderWindow}
use rs8kvn_bot.Database.Monad.{Db, M, Result, ok, err, Error}
use rs8kvn_bot.Database.Reminders.{
  is_term, is_unclaimed, set_reminder, clear_reminder, claim_reminder, release_reminder,
}
use rs8kvn_bot.Service.Reminders.{window_bit, deliver, remind, send_expiry_reminder}
use rs8kvn_bot.Service.Reminders.Bits.{
  same_window, same_window→eq, set_keeps, clear_keeps, set_sets,
}

-- the subscriptions that an operation leaves
abbrev pub rows : {A : Type 0} → M A → Db → List Subscription
rows m db = (m db).1.tables.subscriptions

-- An update of some rows under which no row newly passes a test.
count_kept :
    (q p : Subscription → Bool) (f : Subscription → Subscription) (ss : List Subscription)
    → ((s : Subscription) → p s ≡ true → q (f s) ≡ true → q s ≡ true)
    → count_if q ss ≡ 0
    → count_if q (update_if p f ss) ≡ 0
count_kept q p f [] keeps h = refl
count_kept q p f (s ∷ ss) keeps h = ground (arith, keeps s, count_kept q p f ss keeps)

count_claimed :
    (q : Subscription → Bool) (f : Subscription → Subscription) (ss : List Subscription)
    → ((s : Subscription) → q (f s) ≡ false)
    → count_if q (update_if q f ss) ≡ 0
count_claimed q f [] claims = refl
count_claimed q f (s ∷ ss) claims = ground (arith, claims s, count_claimed q f ss claims)

module _ (id : ℕ) (window : ReminderWindow) (term : Time) where
  abbrev unclaimed : Subscription → Bool
  unclaimed = is_unclaimed id (window_bit window) term

  -- every row of the subscription with this expiry has the bit
  abbrev pub IsClaimed : List Subscription → Type 0
  IsClaimed ss = count_if unclaimed ss ≡ 0

  claim-IsClaimed :
      (i : ℕ) (v : ReminderWindow) (e : Time) (db : Db)
      → IsClaimed db.tables.subscriptions
      → IsClaimed (rows (claim_reminder i (window_bit v) e) db)
  unfolding claim_reminder
  claim-IsClaimed i v e db h = elim (Option-cases (db.faults db.tick)) [
    | inr failed ↦ ground arith
    | inl works ↦
        let p = is_unclaimed i (window_bit v) e in
        let f = set_reminder (window_bit v) in
        let ss = db.tables.subscriptions in
        let done : rows (claim_reminder i (window_bit v) e) db ≡ update_if p f ss = ground arith in
        rw done (
          count_kept unclaimed p f ss (λ s k l. ground (arith, set_keeps window v s.reminders_sent))
            h)
  ]

  release-IsClaimed :
      (i : ℕ) (v : ReminderWindow) (e : Time) (db : Db)
      → ((i == id) && (e == term && same_window window v)) ≡ false
      → IsClaimed db.tables.subscriptions
      → IsClaimed (rows (release_reminder i (window_bit v) e) db)
  unfolding release_reminder
  release-IsClaimed i v e db differs h = elim (Option-cases (db.faults db.tick)) [
    | inr failed ↦ ground arith
    | inl works ↦
        let p = is_term i e in
        let f = clear_reminder (window_bit v) in
        let ss = db.tables.subscriptions in
        let done : rows (release_reminder i (window_bit v) e) db ≡ update_if p f ss =
          ground arith in
        rw done (
          count_kept unclaimed p f ss
            (λ s k l. ground (arith, clear_keeps window v s.reminders_sent)) h)
  ]

  -- A claim that succeeds leaves the reminder claimed.
  claimed :
      (db db' : Db)
      → claim_reminder id (window_bit window) term db ≡ (ok true, db')
      → IsClaimed db'.tables.subscriptions
  unfolding claim_reminder
  claimed db db' h =
      let f = set_reminder (window_bit window) in
      let ss = db.tables.subscriptions in
      let done : db'.tables.subscriptions ≡ update_if unclaimed f ss = ground arith in
      rw done (count_claimed unclaimed f ss (λ s. ground (arith, set_sets window s.reminders_sent)))

  -- and then no claim of it succeeds.
  refused :
      (db db' : Db)
      → IsClaimed db.tables.subscriptions
      → claim_reminder id (window_bit window) term db ≢ (ok true, db')
  unfolding claim_reminder
  refused db db' h k = ground arith

  differs :
      (i : ℕ) (v : ReminderWindow) (e : Time) (db d : Db)
      → IsClaimed db.tables.subscriptions
      → claim_reminder i (window_bit v) e db ≡ (ok true, d)
      → ((i == id) && (e == term && same_window window v)) ≡ false
  differs i v e db d h k = elim (Bool-cases ((i == id) && (e == term && same_window window v))) [
    | inr other ↦ other
    | inl same ↦
        let i≡ : i ≡ id = ground arith in
        let e≡ : e ≡ term = ground arith in
        let v≡ : window ≡ v = same_window→eq window v (ground arith) in absurd (refused db d h (cc))
  ]

  deliver-IsClaimed :
      (e : Time) (sub : Subscription) (v : ReminderWindow) (answer : Bool) (d : Db)
      → ((sub.id == id) && (e == term && same_window window v)) ≡ false
      → IsClaimed d.tables.subscriptions
      → IsClaimed (rows (deliver e sub v answer) d)
  deliver-IsClaimed e sub v true d other h = ground arith
  deliver-IsClaimed e sub v false d other h = release-IsClaimed sub.id v e d other h

  remind-IsClaimed :
      (expires : Option Time) (sub : Subscription) (v : ReminderWindow) (answer : Bool) (db : Db)
      → IsClaimed db.tables.subscriptions
      → IsClaimed (rows (remind expires sub v answer) db)
  remind-IsClaimed none sub v answer db h = h
  remind-IsClaimed (some e) sub v answer db h =
      by_claim (claim_reminder sub.id (window_bit v) e db) refl
    where
      by_claim :
          (r : Result Bool × Db)
          → claim_reminder sub.id (window_bit v) e db ≡ r
          → IsClaimed (rows (remind (some e) sub v answer) db)
      by_claim (err x, d) k = let kept = claim-IsClaimed sub.id v e db h in ground arith
      by_claim (ok false, d) k = let kept = claim-IsClaimed sub.id v e db h in ground arith
      by_claim (ok true, d) k =
          let kept : IsClaimed d.tables.subscriptions =
            subst_rows (ap (λ (r : Result Bool × Db). r.1.tables.subscriptions) k)
              (claim-IsClaimed sub.id v e db h) in
          let later = deliver-IsClaimed e sub v answer d (differs sub.id v e db d h k) kept in
          let same : rows (remind (some e) sub v answer) db ≡ rows (deliver e sub v answer) d =
            ground arith in
          rw same later
        where
          subst_rows : {ss ts : List Subscription} → ss ≡ ts → IsClaimed ss → IsClaimed ts
          subst_rows p x = rw (sym p) x

  send-IsClaimed :
      (has_bot : Bool) (sub : Option Subscription) (v : ReminderWindow) (answer : Bool) (db : Db)
      → IsClaimed db.tables.subscriptions
      → IsClaimed (rows (send_expiry_reminder has_bot sub v answer) db)
  unfolding send_expiry_reminder
  send-IsClaimed has_bot none v answer db h = h
  send-IsClaimed has_bot (some sub) v answer db h =
      elim (Bool-cases (not has_bot || eqb_ℤ sub.telegram_id (pos 0))) [
        | inl skipped ↦ ground arith
        | inr due ↦ let kept = remind-IsClaimed sub.expires_at sub v answer db h in ground arith
      ]

claim_reminder-error :
    (id bit : ℕ) (e : Time) (db : Db) → (claim_reminder id bit e db).0 ≢ err Error.telegram_error
unfolding claim_reminder
claim_reminder-error id bit e db h = ground arith

-- A reminder that was sent is claimed.
remind_sent :
    (e : Time) (sub : Subscription) (window : ReminderWindow) (answer : Bool) (db : Db)
    → (remind (some e) sub window answer db).0 ≡ ok true
    → IsClaimed sub.id window e (rows (remind (some e) sub window answer) db)
remind_sent e sub window answer db h =
    by_claim (claim_reminder sub.id (window_bit window) e db) refl answer refl
  where
    by_claim :
        (r : Result Bool × Db)
        → claim_reminder sub.id (window_bit window) e db ≡ r
        → (a : Bool) → answer ≡ a
        → IsClaimed sub.id window e (rows (remind (some e) sub window answer) db)
    by_claim (err x, d) k a l = absurd (ground arith)
    by_claim (ok false, d) k a l = absurd (ground arith)
    by_claim (ok true, d) k false l = absurd (ground arith)
    by_claim (ok true, d) k true l =
        let done = claimed sub.id window e db d k in
        let same : rows (remind (some e) sub window answer) db ≡ d.tables.subscriptions =
          ground arith in
        rw same done

-- Nothing is sent, nor tried to be, for a reminder that is claimed.
remind_skips :
    (e : Time) (sub : Subscription) (window : ReminderWindow) (answer : Bool) (db : Db)
    → IsClaimed sub.id window e db.tables.subscriptions
    → ((remind (some e) sub window answer db).0 ≢ ok true)
      × ((remind (some e) sub window answer db).0 ≢ err Error.telegram_error)
remind_skips e sub window answer db h =
    by_claim (claim_reminder sub.id (window_bit window) e db) refl
  where
    by_claim :
        (r : Result Bool × Db)
        → claim_reminder sub.id (window_bit window) e db ≡ r
        → ((remind (some e) sub window answer db).0 ≢ ok true)
          × ((remind (some e) sub window answer db).0 ≢ err Error.telegram_error)
    by_claim (err x, d) k =
        let other = claim_reminder-error sub.id (window_bit window) e db in
        (λ l. ground arith, λ l. other (ground arith))
    by_claim (ok false, d) k = (λ l. ground arith, λ l. ground arith)
    by_claim (ok true, d) k = absurd (refused sub.id window e db d h k)

-- What the subscriptions become under reminders of any subscriptions and windows, each at a
-- database with these subscriptions, other tables as they may be then, and any failures.
pub data Reach (ss : List Subscription) : List Subscription → Type 0 where
  here : Reach ss ss
  next :
      {ts : List Subscription} (has_bot : Bool) (sub : Option Subscription)
      (window : ReminderWindow) (answer : Bool) (db : Db)
      → Reach ss ts
      → db.tables.subscriptions ≡ ts
      → Reach ss (rows (send_expiry_reminder has_bot sub window answer) db)

Reach-IsClaimed :
    (id : ℕ) (window : ReminderWindow) (e : Time) {ss ts : List Subscription}
    → Reach ss ts
    → IsClaimed id window e ss
    → IsClaimed id window e ts
Reach-IsClaimed id window e here h = h
Reach-IsClaimed id window e (next has_bot sub v answer db r same) h =
    let kept = Reach-IsClaimed id window e r h in
    send-IsClaimed id window e has_bot sub v answer db (rw same kept)

-- After a reminder was sent for a window of a subscription's term, and any reminders of any
-- subscriptions since, whatever the bot answered and whichever statements failed, no reminder is
-- sent, nor tried to be, for that window and the same term of that subscription.
pub send_expiry_reminder_once :
    (has_bot : Bool) (sub : Subscription) (window : ReminderWindow) (answer : Bool) (db : Db)
    (term : Time)
    → sub.expires_at ≡ some term
    → (send_expiry_reminder has_bot (some sub) window answer db).0 ≡ ok true
    → {ts : List Subscription}
    → Reach (rows (send_expiry_reminder has_bot (some sub) window answer) db) ts
    → (db' : Db) → db'.tables.subscriptions ≡ ts
    → (has_bot' : Bool) (sub' : Subscription) (answer' : Bool) → sub'.id ≡ sub.id
    → sub'.expires_at ≡ some term
    → ((send_expiry_reminder has_bot' (some sub') window answer' db').0 ≢ ok true)
      × ((send_expiry_reminder has_bot' (some sub') window answer' db').0
          ≢ err Error.telegram_error)
unfolding send_expiry_reminder
send_expiry_reminder_once has_bot sub window answer db term e sent {ts} r db' same has_bot' sub'
      answer' i e' =
    let first : (remind (some term) sub window answer db).0 ≡ ok true = ground arith in
    let done = remind_sent term sub window answer db first in
    let left : rows (send_expiry_reminder has_bot (some sub) window answer) db
        ≡ rows (remind (some term) sub window answer) db =
      ground arith in
    let there = Reach-IsClaimed sub.id window term r (rw left done) in
    let skips = remind_skips term sub' window answer' db' (rw (i, same) there) in
    elim (Bool-cases (not has_bot' || eqb_ℤ sub'.telegram_id (pos 0))) [
      | inl idle ↦ (λ k. ground arith, λ k. ground arith)
      | inr due ↦ (λ k. skips.0 (ground arith), λ k. skips.1 (ground arith))
    ]
