-- ===== src/Service/Order/Request/Runs.antt =====
-- A request for a payment link acts on the database by operations of the order store.
use rs8kvn_bot.Common.{Bool, true, false, not, Option, none, some, String, arith, str_eq}
use rs8kvn_bot.Common.Text.{text_of}
use rs8kvn_bot.Common.Int.{ℤ}
use rs8kvn_bot.Database.Models.{Time, Subscription, Product, Plan, Order, is_pending, is_expired}
use rs8kvn_bot.Database.Monad.{Result, ok, err}
use rs8kvn_bot.Database.Subscriptions.{get_plan_by_id}
use rs8kvn_bot.Database.Orders.Intent.{
  get_order_by_id, find_pending_payment_order, find_or_create_pending_payment_order,
  mark_payment_creation_uncertain, save_payment_details,
}
use rs8kvn_bot.Database.Orders.Lifecycle.Reach.{
  here, next, others, find_one, intend, claim as claim_step, link,
}
use rs8kvn_bot.Service.World.{S, PaymentIssue, lift, attempt, ◌>>=◌}
use rs8kvn_bot.Service.World.Runs.{Runs, Runs-attempt, Runs-bind, Runs-if, Runs-read}
use rs8kvn_bot.Service.Order.{parse_transaction_id}
use rs8kvn_bot.Service.Order.Lifecycle.{found_by_id-Runs}
use rs8kvn_bot.Service.Order.Request.{
  Request, PaymentInfo, CreateAnswer, CreateResponse, is_for_sale, has_id, usable_link, when_plan,
  if_for_sale, link_of, reuse_link, when_saved, save_link, url_of, with_duration, with_id,
  when_cleared, when_answered, contact, latest_link, when_reloaded, when_claimed, claim,
  link_or_claim, with_intent, when_created, new_order, when_found, request_payment,
  parse_expires_in,
}

module _ (request : Request) (telegram_id : ℤ) (canonical : Product) where
  plan-Runs :
      {A : Type 0} (issue : PaymentIssue) (m : S A) (r : Result Plan)
      → Runs m
      → Runs (when_plan request telegram_id canonical issue m r)
  plan-Runs issue m (err e) h = λ w. here
  plan-Runs issue m (ok plan) h = Runs-if plan.is_active _ _ h (λ w. here)

  plan_read-Runs : Runs (lift (get_plan_by_id canonical.plan_id))
  unfolding get_plan_by_id
  plan_read-Runs = Runs-read (get_plan_by_id canonical.plan_id) (λ db. ground arith)

  sale-Runs :
      {A : Type 0} (issue : PaymentIssue) (m : S A)
      → Runs m
      → Runs (if_for_sale request telegram_id canonical issue m)
  unfolding if_for_sale
  sale-Runs {A} issue m h =
      Runs-if (not (is_for_sale canonical)) _ _ (λ w. here)
        (Runs-bind {B = A} (attempt (lift (get_plan_by_id canonical.plan_id)))
          (when_plan request telegram_id canonical issue m)
          (Runs-attempt (lift (get_plan_by_id canonical.plan_id)) plan_read-Runs)
          (λ r. plan-Runs issue m r h))

  link-Runs :
      (o : Order) (t : Time) (x : Option String)
      → Runs (link_of request telegram_id canonical o t x)
  link-Runs o t none = λ w. here
  link-Runs o t (some p) = λ w. here

  reuse-Runs : (o : Order) (t : Time) → Runs (reuse_link request telegram_id canonical o t)
  unfolding reuse_link
  reuse-Runs o t w = next here (others _ (ground arith))

  saved-Runs :
      (o : Order) (info : PaymentInfo) (r : Result (Unit {0}))
      → Runs (when_saved request telegram_id canonical o info r)
  saved-Runs o info (ok u) = λ w. here
  saved-Runs o info (err e) = λ w. here

  save-Runs :
      (o : Order) (info : PaymentInfo) → Runs (save_link request telegram_id canonical o info)
  save-Runs o info =
      let m = save_payment_details o.id info.payment_id info.url info.expires_at in
      Runs-bind {B = PaymentInfo} (attempt (lift m))
        (when_saved request telegram_id canonical o info)
        (Runs-attempt (lift m)
          (λ w. next here (link o.id info.payment_id info.url info.expires_at)))
        (saved-Runs o info)

  duration-Runs :
      (o : Order) (p url : String) (d : Option Time)
      → Runs (with_duration request telegram_id canonical o p url d)
  duration-Runs o p url none = λ w. here
  duration-Runs o p url (some d) = save-Runs o _

  with_id-Runs :
      (o : Order) (r : CreateResponse) (x : Option String)
      → Runs (with_id request telegram_id canonical o r x)
  with_id-Runs o r none = λ w. here
  with_id-Runs o r (some p) =
      Runs-if (str_eq (url_of request telegram_id canonical r) "") _ _ (λ w. here)
        (duration-Runs o p (url_of request telegram_id canonical r)
          (parse_expires_in request.time_parse r.expires_in))

  cleared-Runs :
      (o : Order) (r : Result Bool) → Runs (when_cleared request telegram_id canonical o r)
  cleared-Runs o (ok b) = λ w. here
  cleared-Runs o (err e) = λ w. here

  answered-Runs :
      (o : Order) (a : CreateAnswer) → Runs (when_answered request telegram_id canonical o a)
  unfolding when_answered
  answered-Runs o CreateAnswer.rejected w =
      Runs-bind {B = PaymentInfo} (attempt (lift (mark_payment_creation_uncertain o.id false)))
        (when_cleared request telegram_id canonical o)
        (Runs-attempt (lift (mark_payment_creation_uncertain o.id false))
          (λ w'. next here (claim_step o.id false)))
        (cleared-Runs o) _
  answered-Runs o CreateAnswer.failed w = here
  answered-Runs o (CreateAnswer.created none) w = here
  answered-Runs o (CreateAnswer.created (some r)) w =
      with_id-Runs o r (parse_transaction_id request.uuid_parse r.transaction_id) w

  contact-Runs : (o : Order) → Runs (contact request telegram_id canonical o)
  unfolding contact
  contact-Runs o w = answered-Runs o (request.answer o.id) _

  latest-Runs : (o : Order) (l : Option Time) → Runs (latest_link request telegram_id canonical o l)
  latest-Runs o none = λ w. here
  latest-Runs o (some t) =
      link-Runs o t (parse_transaction_id request.uuid_parse (text_of o.provider_payment_id))

  reloaded-Runs :
      (o : Order) (r : Result Order) → Runs (when_reloaded request telegram_id canonical o r)
  reloaded-Runs o (err e) = λ w. here
  reloaded-Runs o (ok latest) =
      Runs-if latest.payment_creation_uncertain _ _ (λ w. here)
        (latest-Runs latest (usable_link request.now latest))

  claimed-Runs :
      (o : Order) (r : Result Bool) → Runs (when_claimed request telegram_id canonical o r)
  claimed-Runs o (err e) = λ w. here
  claimed-Runs o (ok b) = Runs-if b _ _ (contact-Runs o) (
      Runs-bind {B = PaymentInfo} (attempt (lift (get_order_by_id o.id)))
        (when_reloaded request telegram_id canonical o)
        (Runs-attempt (lift (get_order_by_id o.id)) (found_by_id-Runs o.id)) (reloaded-Runs o))

  claim-Runs : (o : Order) → Runs (claim request telegram_id canonical o)
  unfolding claim
  claim-Runs o =
      let m = mark_payment_creation_uncertain o.id true in
      sale-Runs _ (attempt (lift m) >>= when_claimed request telegram_id canonical o) (
        Runs-bind {B = PaymentInfo} (attempt (lift m))
          (when_claimed request telegram_id canonical o)
          (Runs-attempt (lift m) (λ w. next here (claim_step o.id true))) (claimed-Runs o))

  link_or_claim-Runs :
      (o : Order) (l : Option Time) → Runs (link_or_claim request telegram_id canonical o l)
  link_or_claim-Runs o (some t) = reuse-Runs o t
  link_or_claim-Runs o none = Runs-if (has_id o) _ _ (λ w. here) (claim-Runs o)

  with_intent-Runs : (o : Order) → Runs (with_intent request telegram_id canonical o)
  unfolding with_intent
  with_intent-Runs o =
      Runs-if o.payment_creation_uncertain _ _ (λ w. here)
        (link_or_claim-Runs o (usable_link request.now o))

  created-Runs : (r : Result Order) → Runs (when_created request telegram_id canonical r)
  created-Runs (err e) = λ w. here
  created-Runs (ok o) = λ w. next here (others _ (ground arith))

  new_order-Runs : (sub : Subscription) → Runs (new_order request telegram_id canonical sub)
  unfolding new_order
  new_order-Runs sub =
      let m =
        find_or_create_pending_payment_order sub.id canonical.id canonical.price_cents
          canonical.currency request.now in
      sale-Runs _ (attempt (lift m) >>= when_created request telegram_id canonical) (
        Runs-bind {B = Order} (attempt (lift m)) (when_created request telegram_id canonical)
          (Runs-attempt (lift m) (λ w.
            next here
              (intend sub.id canonical.id canonical.price_cents canonical.currency request.now)))
          created-Runs)

  found-Runs :
      (sub : Subscription) (r : Result (Option Order))
      → Runs (when_found request telegram_id canonical sub r)
  found-Runs sub (err e) = λ w. here
  found-Runs sub (ok none) = new_order-Runs sub
  found-Runs sub (ok (some o)) =
      Runs-if (is_expired o.status) _ _ (new_order-Runs sub)
        (Runs-if (not (is_pending o.status)) _ _ (λ w. here) (λ w. here))

  pub request_payment-Runs :
      (sub : Subscription) → Runs (request_payment request telegram_id canonical sub)
  unfolding request_payment
  request_payment-Runs sub =
      let m = find_pending_payment_order sub.id canonical.id request.now in
      Runs-bind {B = PaymentInfo}
        (attempt (lift m) >>= when_found request telegram_id canonical sub)
        (with_intent request telegram_id canonical)
        (Runs-bind {B = Order} (attempt (lift m)) (when_found request telegram_id canonical sub)
          (Runs-attempt (lift m) (λ w. next here (find_one sub.id canonical.id request.now)))
          (found-Runs sub))
        with_intent-Runs
