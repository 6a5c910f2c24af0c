-- ===== src/Service/Order/Request/Contacts.antt =====
-- What asks the provider for a transaction: the messages, and the rows that can be claimed.
use rs8kvn_bot.Common.{
  ℕ, suc, ◌+◌, Bool, true, false, Option, none, some, String, List, [], ◌∷◌, ◌++◌, ◌≡◌, ◌≢◌, ◌⊎◌,
  refl, arith, ◌∙◌, ◌==◌, if◌then◌else◌, str_eq, update_if, count_if, Bool-cases, inl, inr,
}
use rs8kvn_bot.Common.Text.{text_of}
use rs8kvn_bot.Database.Models.{Time, Product, Plan, Order}
use rs8kvn_bot.Common.Int.{ℤ}
use rs8kvn_bot.Database.Monad.{Db, Result, ok, err}
use rs8kvn_bot.Database.Subscriptions.{get_plan_by_id}
use rs8kvn_bot.Database.Orders.Intent.{
  get_order_by_id, mark_payment_creation_uncertain, save_payment_details, claim_filter,
  pending_with_id, details,
}
use rs8kvn_bot.Service.World.{S, World, Message, PaymentIssue, admin_messages, lift, attempt, ◌>>=◌}
use rs8kvn_bot.Service.Order.{parse_transaction_id}
use rs8kvn_bot.Service.Order.Request.{
  Request, PaymentInfo, is_for_sale, usable_link, when_plan, if_for_sale, link_of, latest_link,
  when_reloaded, when_claimed, claim,
}

-- how often the provider was asked for a transaction of the order
abbrev pub contacts : ℕ → List Message → ℕ
contacts id [] = 0
contacts id (Message.create_transaction n cents currency ∷ ms) =
    let rest = contacts id ms in if n == id then suc rest else rest
contacts id (Message.issue i ∷ ms) = contacts id ms
contacts id (Message.invalidate_by_sub_id s ∷ ms) = contacts id ms
contacts id (Message.admin_paid s o p b ∷ ms) = contacts id ms
contacts id (Message.admin_chargeback s o p b ∷ ms) = contacts id ms

contacts-append :
    (id : ℕ) (ms ns : List Message) → contacts id (ms ++ ns) ≡ contacts id ms + contacts id ns
contacts-append id [] ns = ground arith
contacts-append id (Message.create_transaction n c k ∷ ms) ns =
    ground (arith, contacts-append id ms ns)
contacts-append id (Message.issue i ∷ ms) ns = contacts-append id ms ns
contacts-append id (Message.invalidate_by_sub_id s ∷ ms) ns = contacts-append id ms ns
contacts-append id (Message.admin_paid s o p b ∷ ms) ns = contacts-append id ms ns
contacts-append id (Message.admin_chargeback s o p b ∷ ms) ns = contacts-append id ms ns

contacts-issue :
    (id : ℕ) (w : World) (i : PaymentIssue)
    → contacts id (w.outbox ++ admin_messages w.admin (Message.issue i)) ≡ contacts id w.outbox
contacts-issue id w i =
    contacts-append id w.outbox (admin_messages w.admin (Message.issue i)) ∙ ground arith

-- the rows that a claim would take
abbrev pub claimable : ℕ → List Order → ℕ
claimable id orders = count_if (claim_filter id true) orders

-- Claiming leaves nothing to claim.
claimed_rows :
    (id : ℕ) (xs : List Order)
    → claimable id
        (update_if (claim_filter id true) (λ o. record o { payment_creation_uncertain = true }) xs)
      ≡ 0
claimed_rows id [] = refl
claimed_rows id (x ∷ xs) = ground (arith, claimed_rows id xs)

-- Saving a link makes nothing claimable.
saved_rows :
    (id i : ℕ) (payment_id url : String) (until : Time) (xs : List Order)
    → str_eq payment_id "" ≡ false
    → claimable id xs ≡ 0
    → claimable id (update_if (pending_with_id i) (details payment_id url until) xs) ≡ 0
saved_rows id i payment_id url until [] h k = refl
saved_rows id i payment_id url until (x ∷ xs) h k =
    ground (arith, saved_rows id i payment_id url until xs)

pub mark_true :
    (id : ℕ) (db : Db)
    → (mark_payment_creation_uncertain id true db).0 ≡ ok true
    → (claimable id db.tables.orders ≡ 1)
      × (claimable id (mark_payment_creation_uncertain id true db).1.tables.orders ≡ 0)
unfolding mark_payment_creation_uncertain
mark_true id db h = (ground arith, ground (arith, claimed_rows id db.tables.orders))

pub save_keeps :
    (id i : ℕ) (payment_id url : String) (until : Time) (db : Db)
    → str_eq payment_id "" ≡ false
    → claimable id db.tables.orders ≡ 0
    → claimable id (save_payment_details i payment_id url until db).1.tables.orders ≡ 0
unfolding save_payment_details
save_keeps id i payment_id url until db h k =
    ground (arith, saved_rows id i payment_id url until db.tables.orders)

plan_reads : (id : ℕ) (db : Db) → (get_plan_by_id id db).1.tables ≡ db.tables
unfolding get_plan_by_id
plan_reads id db = ground arith

mark_false_when_none :
    (id : ℕ) (db : Db)
    → claimable id db.tables.orders ≡ 0
    → (mark_payment_creation_uncertain id true db).0 ≢ ok true
unfolding mark_payment_creation_uncertain
mark_false_when_none id db h k = ground arith

-- A run that asks the provider for nothing, by the count for one order.
abbrev pub Quiet : ℕ → {A : Type 0} → World → Result A × World → Type 0
Quiet id w (r, w') = contacts id w'.outbox ≡ contacts id w.outbox

module _ (request : Request) (telegram_id : ℤ) (canonical : Product) (id : ℕ) where
  reloaded-Quiet :
      (o : Order) (r : Result Order) (w : World)
      → Quiet id w (when_reloaded request telegram_id canonical o r w)
  reloaded-Quiet o (err e) w = contacts-issue id w _
  reloaded-Quiet o (ok latest) w = elim (Bool-cases latest.payment_creation_uncertain) [
    | inl taken ↦ rw taken refl
    | inr free ↦ rw free (of_link (usable_link request.now latest))
  ]
    where
      of_link :
          (l : Option Time) → Quiet id w (latest_link request telegram_id canonical latest l w)
      of_link none = refl
      of_link (some t) =
          of_id (parse_transaction_id request.uuid_parse (text_of latest.provider_payment_id))
        where
          of_id :
              (x : Option String) → Quiet id w (link_of request telegram_id canonical latest t x w)
          of_id none = refl
          of_id (some x) = refl

  -- a claim that was not granted asks for nothing
  pub claimed-Quiet :
      (o : Order) (r : Result Bool) (w : World)
      → r ≢ ok true
      → Quiet id w (when_claimed request telegram_id canonical o r w)
  claimed-Quiet o (err e) w h = contacts-issue id w _
  claimed-Quiet o (ok true) w h = absurd (h refl)
  claimed-Quiet o (ok false) w h =
      let (r, db') = get_order_by_id o.id w.db in reloaded-Quiet o r (record w { db = db' })

  abbrev pub plan_world : World → World
  plan_world w = record w { db = (get_plan_by_id canonical.plan_id w.db).1 }

  abbrev pub claim_body : Order → S PaymentInfo
  claim_body o w =
      let (r, db') = mark_payment_creation_uncertain o.id true w.db in
      when_claimed request telegram_id canonical o r (record w { db = db' })

  plan_cases :
      (issue : PaymentIssue) (m : S PaymentInfo) (r : Result Plan) (w : World)
      → Quiet id w (when_plan request telegram_id canonical issue m r w)
        ⊎ (when_plan request telegram_id canonical issue m r w ≡ m w)
  plan_cases issue m (err e) w = inl (contacts-issue id w issue)
  plan_cases issue m (ok plan) w = elim (Bool-cases plan.is_active) [
    | inl on ↦ inr (rw on refl)
    | inr off ↦ inl (rw off refl)
  ]

  sale_cases :
      (issue : PaymentIssue) (m : S PaymentInfo) (w : World)
      → Quiet id w (if_for_sale request telegram_id canonical issue m w)
        ⊎ (if_for_sale request telegram_id canonical issue m w ≡ m (plan_world w))
  unfolding if_for_sale
  sale_cases issue m w = elim (Bool-cases (is_for_sale canonical)) [
    | inr off ↦ inl (rw off refl)
    | inl on ↦ rw on (plan_cases issue m (get_plan_by_id canonical.plan_id w.db).0 (plan_world w))
  ]

  -- A claim asks for nothing, or goes on once the product and its plan have been looked at.
  pub claim_cases :
      (o : Order) (w : World)
      → Quiet id w (claim request telegram_id canonical o w)
        ⊎ (claim request telegram_id canonical o w ≡ claim_body o (plan_world w))
  unfolding claim
  claim_cases o w =
      sale_cases _
        (attempt (lift (mark_payment_creation_uncertain o.id true))
          >>= when_claimed request telegram_id canonical o)
        w

  body-Quiet :
      (o : Order) (w : World)
      → (mark_payment_creation_uncertain o.id true w.db).0 ≢ ok true
      → Quiet id w (claim_body o w)
  body-Quiet o w h =
      let (r, db') = mark_payment_creation_uncertain o.id true w.db in
      claimed-Quiet o r (record w { db = db' }) h

  -- With nothing to claim, the provider is not asked.
  pub claim-Quiet :
      (o : Order) (w : World)
      → claimable o.id w.db.tables.orders ≡ 0
      → Quiet id w (claim request telegram_id canonical o w)
  claim-Quiet o w h = elim (claim_cases o w) [
    | inl quiet ↦ quiet
    | inr run ↦
        let same = plan_reads canonical.plan_id w.db in
        let none_left : claimable o.id (plan_world w).db.tables.orders ≡ 0 = rw same h in
        rw run (body-Quiet o (plan_world w) (mark_false_when_none o.id (plan_world w).db none_left))
  ]
