-- ===== src/Service/Order.antt =====
-- internal/service/order.go: the callbacks of the payment provider and the reconciliation of orders.
-- What the callbacks share: the state of the service, and the transaction identifiers. The library
-- google/uuid is a parameter.
pub mod Payload
pub mod Confirm
pub mod Lifecycle
pub mod Guards
pub mod Cancel
pub mod Reconcile
pub mod Request
pub mod History
pub mod CancelGuards
pub mod Alerts
pub mod Once
pub mod Activation
pub mod Expiry
pub mod Fees
pub mod Unchanged
use rs8kvn_bot.Common.{
  ℕ, ◌+◌, ◌*◌, Bool, true, false, not, ◌&&◌, ◌||◌, Option, none, some, String, List, [], ◌∷◌, leb,
  ◌==◌, if◌then◌else◌, map,
}
use rs8kvn_bot.Common.Text.{Text, trim_space, text_of}
use rs8kvn_bot.Database.Models.{Time}
use rs8kvn_bot.Database.Monad.{M, Error}
use rs8kvn_bot.Database.Orders.Confirm.{ApplyPlanInTx}

-- What the order service calls of the synchronization service.
pub record SyncService : Type 0 where
  pub apply_plan_to_subscription_in_tx : ℕ → ℕ → M (Unit {0})
  pub sync_subscription : ℕ → M (Unit {0})

-- The service: whether a payment provider and a subscription service are configured, the
-- synchronization service (`none` is Go's nil), and the error of lockPayment, `none` when the
-- payment's lock is acquired. `now` stands for the call of time.Now.
pub record OrderService : Type 0 where
  pub has_payment_provider : Bool
  pub has_sub_svc : Bool
  pub sync_svc : Option SyncService
  pub lock_error : Option Error
  pub now : Time

-- applyPlan, which is nil without a synchronization service
abbrev pub plan_in_tx : Option SyncService → ApplyPlanInTx
plan_in_tx none = none
plan_in_tx (some sync) = some sync.apply_plan_to_subscription_in_tx

-- what uuid.Parse returns: the version and the canonical text
pub record Uuid : Type 0 where
  pub version : ℕ
  pub text : String

-- uuid.Nil
abbrev pub nil_uuid : String
nil_uuid = "00000000-0000-0000-0000-000000000000"

abbrev pub eq_text : Text → Text → Bool
eq_text [] [] = true
eq_text [] (d ∷ t) = false
eq_text (c ∷ s) [] = false
eq_text (c ∷ s) (d ∷ t) = let rest = eq_text s t in (c == d) && rest

-- strings.ToLower on ASCII: uuid.Parse accepts no other text.
abbrev lower : Text → Text
lower s = map (λ c. if leb b'A' c && leb c b'Z' then c + 32 else c) s

abbrev pub canonical : Text → Option Uuid → Option String
canonical value none = none
canonical value (some u) =
    if u.version == 4 && eq_text (text_of u.text) (lower value) then some u.text else none

-- ParseTransactionID
unfoldable pub parse_transaction_id : (Text → Option Uuid) → Text → Option String
parse_transaction_id uuid_parse raw =
    let value = trim_space raw in canonical value (uuid_parse value)
