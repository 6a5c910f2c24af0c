-- ===== src/Database/Models.antt =====
-- internal/database/models.go: the rows of the tables, and the audit events of audit_log.go by
-- their constructors' arguments. Times are nanoseconds of Unix time, in UTC. The
-- columns updated_at are left out, since no query here reads them.
use rs8kvn_bot.Common.{ℕ, Bool, Option, String, List, true, false}
use rs8kvn_bot.Common.Int.{ℤ}
use rs8kvn_bot.Common.Text.{Text}

abbrev pub Time : Type 0
Time = ℕ

abbrev pub minute : Time
minute = 60000000000

abbrev pub day : Time
day = 86400000000000

pub data SubscriptionStatus : Type 0 where
  active expired paused canceled revoked : SubscriptionStatus

pub record Subscription : Type 0 where
  pub id : ℕ
  pub telegram_id : ℤ
  pub username : String
  pub client_id : String
  pub subscription_id : String
  pub expires_at : Option Time
  pub status : SubscriptionStatus
  pub invite_code : Option String
  pub plan_id : ℕ
  pub referred_by : Option ℤ
  pub product_id : Option ℕ
  pub started_at : Option Time
  pub price_paid_cents : ℤ
  pub currency : Option String
  pub reminders_sent : ℕ
  pub traffic_reminders_sent : ℕ
  pub created_at : Time

pub data NodeType : Type 0 where
  three_x_ui proxman fetch : NodeType

pub record Node : Type 0 where
  pub id : ℕ
  pub name : String
  pub is_active : Bool
  pub type : NodeType

pub record Plan : Type 0 where
  pub id : ℕ
  pub name : String
  pub is_active : Bool
  pub devices_limit : ℤ
  pub traffic_limit : ℤ

pub record PlanNode : Type 0 where
  pub plan_id : ℕ
  pub node_id : ℕ

pub record Product : Type 0 where
  pub id : ℕ
  pub plan_id : ℕ
  pub name : String
  pub duration_days : ℕ
  pub price_cents : ℤ
  pub currency : String
  pub is_active : Bool

pub data OrderStatus : Type 0 where
  pending paid expired canceled : OrderStatus

pub record Order : Type 0 where
  pub id : ℕ
  pub subscription_id : ℕ
  pub product_id : ℕ
  pub status : OrderStatus
  pub amount_cents : ℤ
  pub callback_amount_cents : Option ℤ
  pub provider_fee_cents : Option ℤ
  pub currency : String
  pub payment_provider : String
  pub provider_payment_id : String  -- NULL is read as the empty text
  pub created_at : Time
  pub paid_at : Option Time
  pub activated_at : Option Time
  pub expires_at : Option Time
  pub payment_url : String
  pub payment_expires_at : Option Time
  pub payment_creation_uncertain : Bool

pub data SyncStatus : Type 0 where
  active pending_add pending_remove pending_update : SyncStatus

pub record SubscriptionNode : Type 0 where
  pub subscription_id : ℕ
  pub node_id : ℕ
  pub status : SyncStatus
  pub retry_count : ℕ
  pub retry_at : Option Time
  pub last_error : Option String

pub record ChargebackResult : Type 0 where
  pub order : Order
  pub was_paid : Bool
  pub transitioned : Bool
  pub downgraded : Bool

-- the windows of a reminder before the expiry: three days, one day, three hours
pub data ReminderWindow : Type 0 where
  three_days one_day three_hours : ReminderWindow

pub data ActorType : Type 0 where
  payment_provider : ActorType

pub record Invite : Type 0 where
  pub code : String
  pub referrer_tg_id : ℤ

pub record TrialRequest : Type 0 where
  pub ip : String
  pub created_at : Time

pub data BroadcastStatus : Type 0 where
  scheduled running completed failed canceled : BroadcastStatus

pub data RecipientStatus : Type 0 where
  pending sending sent blocked unreachable failed : RecipientStatus

-- BroadcastRecipient; its BroadcastID, which the JSON leaves out, is the id of the row it is read from.
pub record Recipient : Type 0 where
  pub id : ℕ
  pub telegram_id : ℤ
  pub status : RecipientStatus
  pub attempts : ℕ
  pub last_error : Text
  pub next_chunk : ℕ
  pub updated_at : Time

pub record RecipientState : Type 0 where
  pub snapshot : Bool
  pub recipients : List Recipient

pub record BroadcastSendError : Type 0 where
  pub telegram_id : ℤ
  pub error : Text

-- users by outcome
pub record BroadcastDeliveryReport : Type 0 where
  pub delivered : List ℤ
  pub blocked : List ℤ
  pub unreachable : List ℤ
  pub errors : List BroadcastSendError
  pub not_processed : List ℤ

-- The column recipients_state is what json.Unmarshal reads in it: `none` for a text that it refuses.
pub record Broadcast : Type 0 where
  pub id : ℕ
  pub name : String
  pub filters : String
  pub message_text : String
  pub status : BroadcastStatus
  pub planned_at : Option Time
  pub started_at : Option Time
  pub finished_at : Option Time
  pub recipients_total : ℕ
  pub sent_count : ℕ
  pub blocked_count : ℕ
  pub failed_count : ℕ
  pub unreachable_count : ℕ
  pub delivery_report : String
  pub last_error : String
  pub retry_at : Option Time
  pub retry_count : ℕ
  pub recipients_state : Option RecipientState

-- The arguments of AuditPaymentConfirmed, AuditSubscriptionRenewed, AuditOrderExpired,
-- AuditOrderCanceled, AuditChargebackReceived, AuditPaymentCreationUncertain, AuditOrderCreated.
pub data AuditLog : Type 0 where
  payment_confirmed : Order → Subscription → Product → Time → AuditLog
  subscription_renewed : Subscription → Subscription → Product → AuditLog
  order_expired : Order → AuditLog
  order_canceled : Order → ActorType → AuditLog
  chargeback_received : Order → Subscription → Bool → AuditLog
  payment_creation_uncertain : Order → AuditLog
  order_created : Order → AuditLog
  trial_deleted : Subscription → AuditLog
  reminder_sent : Subscription → ReminderWindow → AuditLog

-- The comparisons of the WHERE clauses.
abbrev pub is_pending : OrderStatus → Bool
is_pending OrderStatus.pending = true
is_pending _ = false

abbrev pub is_paid : OrderStatus → Bool
is_paid OrderStatus.paid = true
is_paid _ = false

abbrev pub is_expired : OrderStatus → Bool
is_expired OrderStatus.expired = true
is_expired _ = false

abbrev pub is_active_subscription : SubscriptionStatus → Bool
is_active_subscription SubscriptionStatus.active = true
is_active_subscription _ = false

abbrev pub same_status : OrderStatus → OrderStatus → Bool
same_status OrderStatus.pending b = is_pending b
same_status OrderStatus.paid b = is_paid b
same_status OrderStatus.expired b = is_expired b
same_status OrderStatus.canceled OrderStatus.canceled = true
same_status OrderStatus.canceled _ = false
