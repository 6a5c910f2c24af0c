-- ===== src/Service/Order/Request.antt =====
-- internal/service/order.go: requestPayment, once the product and the subscription are known, with
-- logAuditOrderCreated, and ParseExpiresIn of payment/platega/client.go. The order that accompanies
-- an error is left out. uuid.Parse, time.Parse and the provider's answer are parameters.
pub mod Contacts
pub mod Runs
pub mod Once
use rs8kvn_bot.Common.{
  ℕ, ◌+◌, ◌*◌, Bool, true, false, not, ◌&&◌, ◌||◌, Option, none, some, String, ltb, ◌==◌,
  if◌then◌else◌, str_eq,
}
use rs8kvn_bot.Common.Int.{ℤ, pos, ltb_ℤ}
use rs8kvn_bot.Common.Text.{Text, trim_space, text_of, is_empty}
use rs8kvn_bot.Database.Models.{
  Time, minute, Subscription, Product, Plan, Order, AuditLog, is_pending, is_expired,
}
use rs8kvn_bot.Database.Monad.{Error, Result, ok, err, best_effort, insert_audit_log}
use rs8kvn_bot.Database.Subscriptions.{get_plan_by_id}
use rs8kvn_bot.Database.Orders.Intent.{
  get_order_by_id, find_pending_payment_order, find_or_create_pending_payment_order,
  mark_payment_creation_uncertain, save_payment_details,
}
use rs8kvn_bot.Service.World.{
  S, Message, IssueEvent, PaymentIssue, pure, raise, lift, attempt, ◌>>=◌, ◌>>◌, send,
  notify_payment_issue, bare_issue, order_issue, report,
}
use rs8kvn_bot.Service.Order.{Uuid, parse_transaction_id}

-- PaymentInfo; the provider is always "platega".
pub record PaymentInfo : Type 0 where
  pub url : String
  pub payment_id : String
  pub expires_at : Time

-- CreateTransactionResponse; the two links as strings.TrimSpace leaves them.
pub record CreateResponse : Type 0 where
  pub transaction_id : Text
  pub url : String
  pub redirect : String
  pub expires_in : Text

-- CreateTransaction: a response that may be nil, ErrBadRequest or ErrAuth, or another error.
pub data CreateAnswer : Type 0 where
  created : Option CreateResponse → CreateAnswer
  rejected failed : CreateAnswer

-- The request's surroundings: the provider's answer to a request for an order, the libraries, the
-- time of the request and the time of the answer.
pub record Request : Type 0 where
  pub answer : ℕ → CreateAnswer
  pub uuid_parse : Text → Option Uuid
  pub time_parse : Text → Option (ℕ × ℕ × ℕ)
  pub now : Time
  pub answered_at : Time

abbrev duration : Option (ℕ × ℕ × ℕ) → Option Time
duration none = none
duration (some (h, m, s)) =
    if h == 0 && (m == 0 && s == 0)
    then none
    else some (h * (60 * minute) + m * minute + s * 1000000000)

-- ParseExpiresIn
unfoldable pub parse_expires_in : (Text → Option (ℕ × ℕ × ℕ)) → Text → Option Time
parse_expires_in time_parse raw =
    let value = trim_space raw in if is_empty value then none else duration (time_parse value)

-- `!canonical.IsActive || canonical.PriceCents <= 0`, negated
abbrev pub is_for_sale : Product → Bool
is_for_sale p = p.is_active && ltb_ℤ (pos 0) p.price_cents

abbrev pub has_id : Order → Bool
has_id o = not (is_empty (trim_space (text_of o.provider_payment_id)))

abbrev in_future : Time → Option Time → Option Time
in_future now none = none
in_future now (some t) = if ltb now t then some t else none

-- the deadline of a link that can still be used
abbrev pub usable_link : Time → Order → Option Time
usable_link now o =
    if has_id o && not (str_eq o.payment_url "") then in_future now o.payment_expires_at else none

module _ (request : Request) (telegram_id : ℤ) (canonical : Product) where
  -- notifyRequestIssue, and the alerts of an order
  abbrev product_issue : IssueEvent → PaymentIssue
  product_issue event = record (bare_issue event "" "") {
    telegram_id = telegram_id;
    product_id = canonical.id;
    product_name = canonical.name;
    amount_cents = canonical.price_cents;
    currency = canonical.currency;
  }

  abbrev issue_for : IssueEvent → Order → PaymentIssue
  issue_for event o = record (order_issue event o.provider_payment_id "" o) {
    telegram_id = telegram_id;
    product_id = canonical.id;
    product_name = canonical.name;
  }

  abbrev pub when_plan : {A : Type 0} → PaymentIssue → S A → Result Plan → S A
  when_plan issue m (err e) = report issue e
  when_plan issue m (ok plan) = if plan.is_active then m else raise Error.plan_inactive

  -- `m`, if the product and its plan are active
  unfoldable pub if_for_sale : {A : Type 0} → PaymentIssue → S A → S A
  if_for_sale issue m =
      if not (is_for_sale canonical)
      then raise Error.invalid_request
      else attempt (lift (get_plan_by_id canonical.plan_id)) >>= when_plan issue m

  abbrev pub link_of : Order → Time → Option String → S PaymentInfo
  link_of o deadline none = raise Error.invalid_provider_id
  link_of o deadline (some id) =
      pure (record { url = o.payment_url; payment_id = id; expires_at = deadline })

  -- the stored link; a stored id that is no identifier is alerted
  unfoldable pub reuse_link : Order → Time → S PaymentInfo
  reuse_link o deadline =
      elim (parse_transaction_id request.uuid_parse (text_of o.provider_payment_id)) [
        | none ↦
            report (issue_for IssueEvent.stored_provider_id_invalid o) Error.invalid_provider_id
        | some id ↦ link_of o deadline (some id)
      ]

  abbrev pub when_saved : Order → PaymentInfo → Result (Unit {0}) → S PaymentInfo
  when_saved o info (ok u) = pure info
  when_saved o info (err e) =
      report
        (record (issue_for IssueEvent.payment_details_save_failed o) {
          provider_id = info.payment_id;
        })
        e

  abbrev pub save_link : Order → PaymentInfo → S PaymentInfo
  save_link o info =
      attempt (lift (save_payment_details o.id info.payment_id info.url info.expires_at))
      >>= when_saved o info

  abbrev pub incomplete : Order → S PaymentInfo
  incomplete o = report (issue_for IssueEvent.provider_incomplete_response o) Error.provider_error

  -- the link of a response: its URL, or its redirect
  abbrev pub url_of : CreateResponse → String
  url_of r = if str_eq r.url "" then r.redirect else r.url

  abbrev pub with_duration : Order → String → String → Option Time → S PaymentInfo
  with_duration o id url none = incomplete o
  with_duration o id url (some d) =
      save_link o (record { url = url; payment_id = id; expires_at = request.answered_at + d })

  abbrev pub with_id : Order → CreateResponse → Option String → S PaymentInfo
  with_id o r none =
      report (issue_for IssueEvent.provider_invalid_transaction_id o) Error.provider_error
  with_id o r (some id) =
      if str_eq (url_of r) ""
      then incomplete o
      else with_duration o id (url_of r) (parse_expires_in request.time_parse r.expires_in)

  abbrev pub when_cleared : Order → Result Bool → S PaymentInfo
  when_cleared o (err e) = report (issue_for IssueEvent.clear_payment_uncertainty_failed o) e
  when_cleared o (ok b) = raise Error.provider_error

  -- by the answer of the provider
  unfoldable pub when_answered : Order → CreateAnswer → S PaymentInfo
  when_answered o CreateAnswer.rejected =
      notify_payment_issue (issue_for IssueEvent.provider_create_rejected o)
      >> (attempt (lift (mark_payment_creation_uncertain o.id false)) >>= when_cleared o)
  when_answered o CreateAnswer.failed =
      report (issue_for IssueEvent.provider_create_uncertain o) Error.provider_error
  when_answered o (CreateAnswer.created none) =
      report (issue_for IssueEvent.provider_empty_response o) Error.provider_error
  when_answered o (CreateAnswer.created (some r)) =
      with_id o r (parse_transaction_id request.uuid_parse r.transaction_id)

  -- The provider is contacted, with the product's price.
  unfoldable pub contact : Order → S PaymentInfo
  contact o =
      send (Message.create_transaction o.id canonical.price_cents canonical.currency)
      >> when_answered o (request.answer o.id)

  abbrev pub latest_link : Order → Option Time → S PaymentInfo
  latest_link o none = raise Error.payment_already_in_progress
  latest_link o (some deadline) =
      link_of o deadline (parse_transaction_id request.uuid_parse (text_of o.provider_payment_id))

  abbrev pub when_reloaded : Order → Result Order → S PaymentInfo
  when_reloaded o (err e) = report (issue_for IssueEvent.reload_pending_order_failed o) e
  when_reloaded o (ok latest) =
      if latest.payment_creation_uncertain
      then raise Error.payment_already_in_progress
      else latest_link latest (usable_link request.now latest)

  abbrev pub when_claimed : Order → Result Bool → S PaymentInfo
  when_claimed o (err e) = report (issue_for IssueEvent.claim_payment_creation_failed o) e
  when_claimed o (ok claimed) =
      if claimed then contact o else attempt (lift (get_order_by_id o.id)) >>= when_reloaded o

  -- a new purchase attempt
  unfoldable pub claim : Order → S PaymentInfo
  claim o =
      if_for_sale (issue_for IssueEvent.load_plan_failed o)
        (attempt (lift (mark_payment_creation_uncertain o.id true)) >>= when_claimed o)

  abbrev pub link_or_claim : Order → Option Time → S PaymentInfo
  link_or_claim o (some deadline) = reuse_link o deadline
  link_or_claim o none = if has_id o then raise Error.payment_already_in_progress else claim o

  -- The link of an intent.
  unfoldable pub with_intent : Order → S PaymentInfo
  with_intent o =
      if o.payment_creation_uncertain
      then report (issue_for IssueEvent.payment_creation_uncertain o)
          Error.payment_creation_uncertain
      else link_or_claim o (usable_link request.now o)

  abbrev pub when_created : Result Order → S Order
  when_created (err e) = report (product_issue IssueEvent.create_pending_order_failed) e
  when_created (ok o) = lift (best_effort (insert_audit_log (AuditLog.order_created o))) >> pure o

  unfoldable pub new_order : Subscription → S Order
  new_order sub = if_for_sale (product_issue IssueEvent.load_plan_failed) (
      attempt (
        lift (
          find_or_create_pending_payment_order sub.id canonical.id canonical.price_cents
            canonical.currency request.now))
      >>= when_created)

  abbrev pub when_found : Subscription → Result (Option Order) → S Order
  when_found sub (err e) = report (product_issue IssueEvent.find_pending_order_failed) e
  when_found sub (ok none) = new_order sub
  when_found sub (ok (some o)) =
      if is_expired o.status
      then new_order sub
      else if not (is_pending o.status)
      then raise Error.payment_already_in_progress
      else pure o

  -- requestPayment, for the subscription that it has found or created
  unfoldable pub request_payment : Subscription → S PaymentInfo
  request_payment sub =
      attempt (lift (find_pending_payment_order sub.id canonical.id request.now))
      >>= when_found sub
      >>= with_intent
