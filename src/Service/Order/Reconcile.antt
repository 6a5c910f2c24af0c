-- ===== src/Service/Order/Reconcile.antt =====
-- internal/service/order.go: reconcilePendingOrder, expireReconciledOrder and persistProviderFee.
-- The answer of the provider (GetTransactionStatus) and uuid.Parse are parameters; the metric that
-- the code counts is the result.
use rs8kvn_bot.Common.{
  ℕ, ◌-◌, Bool, true, false, ◌&&◌, ◌||◌, Option, none, some, String, leb, ◌==◌, if◌then◌else◌, map,
}
use rs8kvn_bot.Common.Int.{ℤ, pos}
use rs8kvn_bot.Common.Text.{Text, trim_space, text_of, decimal}
use rs8kvn_bot.Database.Models.{Order, AuditLog}
use rs8kvn_bot.Database.Monad.{Error, insert_audit_log, best_effort}
use rs8kvn_bot.Database.Orders.Intent.{expire_pending_order, save_order_payment_amounts}
use rs8kvn_bot.Service.World.{S, pure, raise, lift, ◌>>=◌, ◌>>◌}
use rs8kvn_bot.Service.Platega.{Parsed, commission_cents}
use rs8kvn_bot.Service.Order.{OrderService, Uuid, parse_transaction_id, eq_text}
use rs8kvn_bot.Service.Order.Confirm.{PaymentConfirmation, confirm_payment}

-- TransactionStatusResponse: the fields that the service reads
pub record TransactionStatus : Type 0 where
  pub status : Text
  pub amount : Text
  pub currency : String
  pub commission : Text

-- GetTransactionStatus: a response that is nil, ErrTransactionNotFound, or another error.
pub data StatusAnswer : Type 0 where
  response : Option TransactionStatus → StatusAnswer
  transaction_not_found provider_failed : StatusAnswer

-- the label of PaymentReconcileTotal
pub data ReconcileResult : Type 0 where
  skipped_no_provider_id confirmed_pending confirmed_activated : ReconcileResult
  still_pending expire_race expired : ReconcileResult

-- strings.ToUpper of one character, as far as the result is ASCII: the dotless i and the long s too.
abbrev upper : ℕ → ℕ
upper c =
    if leb b'a' c && leb c b'z'
    then c - 32
    else if c == 0x131
    then b'I'
    else if c == 0x17f
    then b'S'
    else c

-- strings.ToUpper(strings.TrimSpace(status))
abbrev pub normalized : Text → Text
normalized s = map upper (trim_space s)

abbrev pub is_status : String → Text → Bool
is_status name s = eq_text s (text_of name)

-- "CANCELED", "CANCELLED", "EXPIRED", "FAILED"
abbrev pub is_refusal : Text → Bool
is_refusal s =
    is_status "CANCELED" s
    || (is_status "CANCELLED" s || (is_status "EXPIRED" s || is_status "FAILED" s))

abbrev pub audit_expiry : Order → Bool → S ReconcileResult
audit_expiry order false = pure ReconcileResult.expire_race
audit_expiry order true =
    lift (best_effort (insert_audit_log (AuditLog.order_expired order)))
    >> pure ReconcileResult.expired

-- expireReconciledOrder
unfoldable pub expire_reconciled_order : Order → S ReconcileResult
expire_reconciled_order order = lift (expire_pending_order order.id) >>= audit_expiry order

abbrev pub confirmed_result : PaymentConfirmation → ReconcileResult
confirmed_result c =
    if c.activated then ReconcileResult.confirmed_activated else ReconcileResult.confirmed_pending

-- by the answer of the provider
unfoldable pub reconcile_answer : OrderService → String → Order → StatusAnswer → S ReconcileResult
reconcile_answer service payment_id order StatusAnswer.transaction_not_found =
    expire_reconciled_order order
reconcile_answer service payment_id order StatusAnswer.provider_failed = raise Error.provider_error
reconcile_answer service payment_id order (StatusAnswer.response none) = raise Error.provider_error
reconcile_answer service payment_id order (StatusAnswer.response (some t)) =
    let s = normalized t.status in
    if is_status "CONFIRMED" s
    then (confirm_payment service payment_id (decimal order.id) t.amount t.currency >>= λ c.
        pure (confirmed_result c))
    else if is_refusal s
    then expire_reconciled_order order
    else pure ReconcileResult.still_pending

module _ (uuid_parse : Text → Option Uuid) (get_transaction_status : String → StatusAnswer)
    (service : OrderService) where
  abbrev pub reconcile_payment : Order → Option String → S ReconcileResult
  reconcile_payment order none = pure ReconcileResult.skipped_no_provider_id
  reconcile_payment order (some payment_id) =
      reconcile_answer service payment_id order (get_transaction_status payment_id)

  -- reconcilePendingOrder
  unfoldable pub reconcile_pending_order : Order → S ReconcileResult
  reconcile_pending_order order =
      reconcile_payment order (parse_transaction_id uuid_parse (text_of order.provider_payment_id))

abbrev pub save_fee : ℕ → ℤ → Parsed ℤ → S (Unit {0})
save_fee order_id cents (Parsed.err e) = raise Error.invalid_amount
save_fee order_id cents (Parsed.ok fee) =
    lift (save_order_payment_amounts order_id cents (some fee))

-- persistProviderFee: a transaction that the provider does not know has the fee zero for good.
unfoldable pub persist_provider_fee : StatusAnswer → ℕ → ℤ → S (Unit {0})
persist_provider_fee StatusAnswer.transaction_not_found order_id cents =
    lift (save_order_payment_amounts order_id cents (some (pos 0)))
persist_provider_fee StatusAnswer.provider_failed order_id cents = raise Error.provider_error
persist_provider_fee (StatusAnswer.response none) order_id cents = raise Error.provider_error
persist_provider_fee (StatusAnswer.response (some t)) order_id cents =
    if is_status "CONFIRMED" t.status
    then save_fee order_id cents (commission_cents t.commission)
    else pure tt
