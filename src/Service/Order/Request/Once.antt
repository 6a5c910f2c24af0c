-- ===== src/Service/Order/Request/Once.antt =====
-- Of the requests that race for one intent, one contacts the provider.
use rs8kvn_bot.Common.{
  ℕ, ◌+◌, Bool, true, false, Option, none, some, String, [], ◌∷◌, ◌++◌, ◌≡◌, ◌≢◌, ◌⊎◌, refl, arith,
  ap, ◌∙◌, str_eq, Bool-cases, inl, inr,
}
use rs8kvn_bot.Common.Text.{Text, trim_space}
use rs8kvn_bot.Database.Models.{Time, Product, Order}
use rs8kvn_bot.Common.Int.{ℤ}
use rs8kvn_bot.Database.Monad.{Db, Result, ok, err}
use rs8kvn_bot.Database.Orders.Intent.{mark_payment_creation_uncertain, save_payment_details}
use rs8kvn_bot.Service.World.{World, Message}
use rs8kvn_bot.Service.Order.{Uuid, parse_transaction_id, canonical}
use rs8kvn_bot.Service.Order.Request.{
  Request, PaymentInfo, CreateAnswer, CreateResponse, when_saved, save_link, url_of, with_duration,
  with_id, when_answered, contact, when_claimed, claim, parse_expires_in,
}
use rs8kvn_bot.Service.Order.Request.Contacts.{
  contacts, claimable, Quiet, save_keeps, mark_true, claimed-Quiet, plan_world, claim_cases,
  claim-Quiet,
}

-- The canonical text of a UUID is not empty.
abbrev pub HasText : (Text → Option Uuid) → Type 0
HasText uuid_parse = (s : Text) (u : Uuid) → uuid_parse s ≡ some u → str_eq u.text "" ≡ false

id_nonempty :
    (uuid_parse : Text → Option Uuid) (s : Text) (p : String)
    → HasText uuid_parse
    → parse_transaction_id uuid_parse s ≡ some p
    → str_eq p "" ≡ false
unfolding parse_transaction_id
id_nonempty uuid_parse s p law h = of_uuid (uuid_parse (trim_space s)) refl h
  where
    of_uuid :
        (u : Option Uuid)
        → uuid_parse (trim_space s) ≡ u
        → canonical (trim_space s) u ≡ some p
        → str_eq p "" ≡ false
    of_uuid none e g = cc
    of_uuid (some u) e g = ground (arith, law (trim_space s) u e)

module _ (request : Request) (telegram_id : ℤ) (canonical : Product)
    (law : HasText request.uuid_parse) where
  -- Nothing is claimable after the run.
  abbrev Taken : ℕ → {A : Type 0} → Result A × World → Type 0
  Taken id (r, w) = claimable id w.db.tables.orders ≡ 0

  saved-Taken :
      (id : ℕ) (o : Order) (info : PaymentInfo) (w : World)
      → str_eq info.payment_id "" ≡ false
      → claimable id w.db.tables.orders ≡ 0
      → Taken id (save_link request telegram_id canonical o info w)
  saved-Taken id o info w h k =
      of_result (save_payment_details o.id info.payment_id info.url info.expires_at w.db)
        (save_keeps id o.id info.payment_id info.url info.expires_at w.db h k)
    where
      of_result :
          (x : Result (Unit {0}) × Db)
          → claimable id x.1.tables.orders ≡ 0
          → Taken id (when_saved request telegram_id canonical o info (x.0) (record w { db = x.1 }))
      of_result (ok u, db') g = g
      of_result (err e, db') g = g

  duration-Taken :
      (id : ℕ) (o : Order) (p url : String) (d : Option Time) (w : World)
      → str_eq p "" ≡ false
      → claimable id w.db.tables.orders ≡ 0
      → Taken id (with_duration request telegram_id canonical o p url d w)
  duration-Taken id o p url none w h k = k
  duration-Taken id o p url (some d) w h k =
      saved-Taken id o (record { url = url; payment_id = p; expires_at = request.answered_at + d })
        w h k

  with_id-Taken :
      (id : ℕ) (o : Order) (r : CreateResponse) (x : Option String) (w : World)
      → ((p : String) → x ≡ some p → str_eq p "" ≡ false)
      → claimable id w.db.tables.orders ≡ 0
      → Taken id (with_id request telegram_id canonical o r x w)
  with_id-Taken id o r none w h k = k
  with_id-Taken id o r (some p) w h k =
      elim (Bool-cases (str_eq (url_of request telegram_id canonical r) "")) [
        | inl bare ↦ rw bare k
        | inr linked ↦ rw linked (
            duration-Taken id o p (url_of request telegram_id canonical r)
              (parse_expires_in request.time_parse r.expires_in) w (h p refl) k)
      ]

  answered-Taken :
      (id : ℕ) (o : Order) (a : CreateAnswer) (w : World)
      → a ≢ CreateAnswer.rejected
      → claimable id w.db.tables.orders ≡ 0
      → Taken id (when_answered request telegram_id canonical o a w)
  unfolding when_answered
  answered-Taken id o CreateAnswer.rejected w h k = absurd (h refl)
  answered-Taken id o CreateAnswer.failed w h k = k
  answered-Taken id o (CreateAnswer.created none) w h k = k
  answered-Taken id o (CreateAnswer.created (some r)) w h k =
      with_id-Taken id o r (parse_transaction_id request.uuid_parse r.transaction_id) w
        (λ p e. id_nonempty request.uuid_parse r.transaction_id p law e) k

  claimed-Taken :
      (o : Order) (r : Result Bool) (w : World)
      → request.answer o.id ≢ CreateAnswer.rejected
      → (r ≡ ok true → claimable o.id w.db.tables.orders ≡ 0)
      → Quiet o.id w (when_claimed request telegram_id canonical o r w)
        ⊎ Taken o.id (when_claimed request telegram_id canonical o r w)
  unfolding contact
  claimed-Taken o (ok true) w a k = inr (
      answered-Taken o.id o (request.answer o.id)
        (record w {
          outbox =
              w.outbox
              ++ Message.create_transaction o.id canonical.price_cents canonical.currency ∷ [];
        })
        a (k refl))
  claimed-Taken o (ok false) w a k =
      inl (claimed-Quiet request telegram_id canonical o.id o (ok false) w (λ h. cc))
  claimed-Taken o (err e) w a k =
      inl (claimed-Quiet request telegram_id canonical o.id o (err e) w (λ h. cc))

  claim-Taken :
      (o : Order) (w : World)
      → request.answer o.id ≢ CreateAnswer.rejected
      → Quiet o.id w (claim request telegram_id canonical o w)
        ⊎ Taken o.id (claim request telegram_id canonical o w)
  claim-Taken o w a = elim (claim_cases request telegram_id canonical o.id o w) [
    | inl quiet ↦ inl quiet
    | inr run ↦
        let mid = plan_world request telegram_id canonical o.id w in
        let (r, db') = mark_payment_creation_uncertain o.id true mid.db in
        rw run (claimed-Taken o r (record mid { db = db' }) a (λ h. (mark_true o.id mid.db h).1))
  ]

-- Requests that race for one intent: once a claim has asked the provider for a transaction of an
-- order, and the provider has not refused the request outright, a later claim of the same order asks
-- for nothing, whatever it read before, whichever statements fail, and whether the first one saved
-- its link, failed or was interrupted: an order is charged at most once. (Between the two the orders
-- stay as they are; the canonical text of a UUID is not empty.)
pub claim_once :
    (request later : Request) (telegram_id telegram_id' : ℤ) (canonical canonical' : Product)
    (o o' : Order) (w w' : World)
    → HasText request.uuid_parse
    → o'.id ≡ o.id
    → request.answer o.id ≢ CreateAnswer.rejected
    → contacts o.id (claim request telegram_id canonical o w).1.outbox ≢ contacts o.id w.outbox
    → w'.db.tables.orders ≡ (claim request telegram_id canonical o w).1.db.tables.orders
    → contacts o.id (claim later telegram_id' canonical' o' w').1.outbox ≡ contacts o.id w'.outbox
claim_once request later telegram_id telegram_id' canonical canonical' o o' w w' law same a asked
      e =
    elim (claim-Taken request telegram_id canonical law o w a) [
      | inl quiet ↦ absurd (asked quiet)
      | inr taken ↦
          claim-Quiet later telegram_id' canonical' o.id o' w'
            (ap (λ i. claimable i w'.db.tables.orders) same ∙ ap (λ x. claimable o.id x) e ∙ taken)
    ]
