-- ===== src/Service/Order/Payload.antt =====
-- internal/service/order.go: which order a callback is about, by its payment id or by its payload
-- (orderByCallbackPayload).
use rs8kvn_bot.Common.{Bool, true, false, not, none, some, String, if◌then◌else◌}
use rs8kvn_bot.Common.Text.{Text, trim_space, text_of, parse_uint, is_empty}
use rs8kvn_bot.Database.Models.{Order}
use rs8kvn_bot.Database.Monad.{Error, Result, ok, err}
use rs8kvn_bot.Database.Orders.Intent.{
  get_order_by_id, get_order_by_provider_payment_id, attach_provider_payment_id, attached, platega,
}
use rs8kvn_bot.Service.World.{S, pure, raise, lift, attempt, ◌>>=◌}

-- the order of a payload, once it is read
abbrev pub attach_order : String → Order → S Order
attach_order payment_id order =
    if not (is_empty (trim_space (text_of order.provider_payment_id)))
    then raise Error.order_not_found
    else lift (attach_provider_payment_id order.id payment_id) >>= λ done.
        if done then pure (attached payment_id order) else raise Error.order_not_found

-- orderByCallbackPayload
unfoldable pub order_by_callback_payload : Text → String → S Order
order_by_callback_payload payload payment_id = elim (parse_uint (trim_space payload)) [
  | none ↦ raise Error.order_not_found
  | some id ↦ lift (get_order_by_id id) >>= attach_order payment_id
]

-- errors.Is(err, ErrOrderNotFound) || errors.Is(err, gorm.ErrRecordNotFound)
abbrev pub is_order_not_found : Error → Bool
is_order_not_found Error.order_not_found = true
is_order_not_found Error.record_not_found = true
is_order_not_found _ = false

-- The order by the payment's id; if there is none, the order of the payload.
abbrev pub or_by_payload : Text → String → Result Order → S Order
or_by_payload payload payment_id (ok order) = pure order
or_by_payload payload payment_id (err e) =
    if is_order_not_found e then order_by_callback_payload payload payment_id else raise e

-- The order of a callback.
unfoldable pub find_payment_order : String → Text → S Order
find_payment_order payment_id payload =
    attempt (lift (get_order_by_provider_payment_id platega payment_id))
    >>= or_by_payload payload payment_id
