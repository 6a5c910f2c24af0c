-- ===== src/Service/World.antt =====
-- What a service run acts on: the database, and the messages it leaves for the administrator, the
-- payment provider and the cache of the subscription server, in their order.
pub mod Runs
use rs8kvn_bot.Common.{
  ℕ, Bool, false, ◌&&◌, if◌then◌else◌, Option, none, some, String, List, [], ◌∷◌, ◌++◌,
}
use rs8kvn_bot.Common.Int.{ℤ, pos, ltb_ℤ}
use rs8kvn_bot.Common.Text.{Text}
use rs8kvn_bot.Database.Models.{Subscription, Order, Product}
use rs8kvn_bot.Database.Monad.{M, Db, Error, Result, ok, err}

-- PaymentIssue.Event, by its text
pub data IssueEvent : Type 0 where
  invalid_provider_id unknown_provider_id load_order_failed callback_currency_mismatch : IssueEvent
  callback_amount_invalid callback_amount_mismatch late_confirmed_callback : IssueEvent
  payment_sync_not_ready load_order_product_failed load_order_subscription_failed : IssueEvent
  confirm_payment_failed cancel_payment_failed invalid_payment_status : IssueEvent
  load_plan_failed find_pending_order_failed create_pending_order_failed : IssueEvent
  payment_creation_uncertain stored_provider_id_invalid claim_payment_creation_failed : IssueEvent
  reload_pending_order_failed provider_create_rejected clear_payment_uncertainty_failed : IssueEvent
  provider_create_uncertain provider_empty_response provider_invalid_transaction_id : IssueEvent
  provider_incomplete_response payment_details_save_failed : IssueEvent

-- PaymentIssue, without the two texts for the reader (Reason and Action) and the fields that no
-- callback fills. A provider id that is no identifier is left out.
pub record PaymentIssue : Type 0 where
  pub event : IssueEvent
  pub order_id : ℕ
  pub telegram_id : ℤ
  pub product_id : ℕ
  pub product_name : String
  pub subscription_id : ℕ
  pub amount_cents : ℤ
  pub currency : String
  pub provider_id : String
  pub callback_status : String
  pub payload : Text

-- The messages that are handed over: to the bot by NotifyPaymentIssue, notifyAdminPaid and
-- notifyAdminChargeback, whose errors are logged and change nothing else; to the provider by
-- CreateTransaction (the order, the cents and the currency); to the cache by InvalidateBySubID.
pub data Message : Type 0 where
  issue : PaymentIssue → Message
  create_transaction : ℕ → ℤ → String → Message
  invalidate_by_sub_id : String → Message
  admin_paid : Subscription → Order → Product → Bool → Message
  admin_chargeback : Option Subscription → Order → Option Product → Bool → Message

-- How the administrator is reached: whether SetAdminBot gave a bot, and the configuration's
-- TelegramAdminID, `none` when there is no configuration.
pub record AdminContact : Type 0 where
  pub has_admin_bot : Bool
  pub telegram_admin_id : Option ℤ

pub record World : Type 0 where
  pub admin : AdminContact
  pub db : Db
  pub outbox : List Message

abbrev pub S : Type 0 → Type 0
S A = World → Result A × World

module _ {A : Type 0} where
  abbrev pub pure : A → S A
  pure a w = (ok a, w)

  abbrev pub raise : Error → S A
  raise e w = (err e, w)

  -- a call of the store
  abbrev pub lift : M A → S A
  lift m w = let (r, db') = m w.db in (r, record w { db = db' })

  -- `x, err := m`, with the error looked at by what follows
  abbrev pub attempt : S A → S (Result A)
  attempt m w = let (r, w') = m w in (ok r, w')

-- the rest of a run, after a result
abbrev pub continue : {A B : Type 0} → (A → S B) → Result A × World → Result B × World
continue f (ok a, w) = f a w
continue f (err e, w) = (err e, w)

infixl 5 ◌>>=◌ ◌>>◌
abbrev pub ◌>>=◌ : {A B : Type 0} → S A → (A → S B) → S B
◌>>=◌ m f w = continue f (m w)

abbrev pub ◌>>◌ : {B : Type 0} → S (Unit {0}) → S B → S B
m >> k = m >>= λ _. k

abbrev pub send : Message → S (Unit {0})
send e w = (ok tt, record w { outbox = w.outbox ++ e ∷ [] })

abbrev is_positive : Option ℤ → Bool
is_positive none = false
is_positive (some id) = ltb_ℤ (pos 0) id

-- the guard of notifyAdmin, notifyAdminPaid and notifyAdminChargeback, negated
abbrev pub can_notify : AdminContact → Bool
can_notify a = a.has_admin_bot && is_positive a.telegram_admin_id

-- what the bot is handed
abbrev pub admin_messages : AdminContact → Message → List Message
admin_messages a e = if can_notify a then e ∷ [] else []

-- notifyAdmin, and the same of its two siblings
abbrev pub notify_admin : Message → S (Unit {0})
notify_admin e w = (ok tt, record w { outbox = w.outbox ++ admin_messages w.admin e })

-- NotifyPaymentIssue, without its log entry and its metric
abbrev pub notify_payment_issue : PaymentIssue → S (Unit {0})
notify_payment_issue i = notify_admin (Message.issue i)

-- the fields that are filled before an order is found
abbrev pub bare_issue : IssueEvent → String → String → PaymentIssue
bare_issue event payment_id status = record {
  event = event;
  order_id = 0;
  telegram_id = pos 0;
  product_id = 0;
  product_name = "";
  subscription_id = 0;
  amount_cents = pos 0;
  currency = "";
  provider_id = payment_id;
  callback_status = status;
  payload = [];
}

-- the fields that an order fills
abbrev pub order_issue : IssueEvent → String → String → Order → PaymentIssue
order_issue event payment_id status o = record (bare_issue event payment_id status) {
  order_id = o.id;
  product_id = o.product_id;
  subscription_id = o.subscription_id;
  amount_cents = o.amount_cents;
  currency = o.currency;
}

-- alert the administrator and fail
abbrev pub report : {A : Type 0} → PaymentIssue → Error → S A
report i e = notify_payment_issue i >> raise e

-- alert the administrator and answer
abbrev pub acknowledge : {A : Type 0} → PaymentIssue → A → S A
acknowledge i a = notify_payment_issue i >> pure a
