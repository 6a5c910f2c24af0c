-- ===== src/Lib.antt =====
-- The payment and provisioning core of rs8kvn_bot, a Telegram bot that sells VPN subscriptions: the
-- order store that confirms, cancels and charges back payments, the bindings of subscriptions to
-- VPN nodes, and the reconciliation that a plan change runs over those bindings.
--
-- The program's parts. A purchase starts as a pending order (a payment intent). The payment
-- provider calls back; the order service confirms the order in one transaction, which renews the
-- subscription and, when the plan changes, reconciles the subscription's node bindings in the same
-- transaction. A background loop then carries the pending bindings out on the VPN panels. A
-- chargeback cancels the order and may return the subscription to the free plan.
--
-- Files.
--   Common: names shared by all modules; Boolean tests on the native numbers, lists, integers.
--   Database/Models: the rows of internal/database/models.go.
--   Database/Monad: statements and transactions over the tables. A database carries `faults`,
--     which says for each statement of the run whether it fails, and `tick`, which counts the
--     statements. A theorem for every database is thus a theorem for every pattern of failures. A
--     transaction that fails restores the tables; COMMIT may fail as well. Monad/Runs inverts runs.
--   Database/Orders: internal/database/orders.go. Orders/Confirm is CalculatePaymentExpiry and
--     ConfirmOrderPaidCAS, Orders/Chargeback is CancelPaidOrderAndDowngradeCAS and CancelOrderCAS,
--     Orders/Intent is FindPendingPaymentOrder, FindOrCreatePendingPaymentOrder,
--     MarkPaymentCreationUncertain, SavePaymentDetails, AttachProviderPaymentID,
--     SaveOrderPaymentAmounts, ExpirePendingOrder and the lookups of an order. Orders/Lifecycle puts
--     all of them into a step relation, in any order.
--   Database/SubscriptionNodes: internal/database/subscription_nodes.go; SubscriptionNodes/Lookup
--     reads the binding of a subscription and a node after each write.
--   Service/PlanReconcile: internal/service/plan_reconcile.go and sync_tx.go, and the entry points
--     of sync.go that use them. planNodeStore is the record PlanNodeStore, its two adapters are
--     db_service_plan_store and tx_plan_store. PlanReconcile/Table is the table of the source's
--     comment, apart from the loops; Effects has StoreLaws, what the loops rely on, and the effect
--     of one run; Bindings and Loops follow the loops; Stores fills StoreLaws for the two adapters;
--     Apply, Frame and Removal state what applying a plan does, what it leaves alone, and what
--     marking a subscription for removal does.
--   Service/Sync: the retry policy of sync.go (handleSyncError, CalculateRetryAt,
--     retryUnavailableNode, fallbackUpdateToCreate, releaseRecoveredNodes). What the policy asks of
--     an error (IsCtxErr, IsRetryable, errors.Is) is a field of SyncFailure; the answer of a node to
--     a ping is a field of Probe.
--   Database/Products, Database/Subscriptions: UpdateProductGuarded of
--     internal/database/products.go and ExpireSubscriptionWithPlanCAS of subscriptions.go, with the
--     lookups that the services call.
--   Database/Broadcasts: internal/database/broadcast_recipients.go, with GetBroadcast and
--     UpdateBroadcast of broadcasts.go. A mutation of the recipients is the function that the source
--     passes to updateBroadcastRecipientState; the JSON column is what json.Unmarshal reads in it.
--     Recipients has the operations on the recipients, Stats the statistics. Evolves, Mutations,
--     Runs, Operations and Histories follow a snapshot through any operations, Leases the lease of
--     one worker, Batches a claim, Outcomes and Report the statistics.
--   Database/Trials: internal/database/trials.go, with Cleanup for the end of a trial. Keeps and
--     Rows are what each operation does to the subscriptions, Binding the binding of a trial to a
--     user, Once any sequence of operations on trials. The clock is an argument; the id of a new row
--     is the next one. A deletion has the effects of the foreign keys on subscriptions.
--   Database/Reminders and Service/Reminders: internal/database/subscription_reminders.go and
--     internal/service/subscription_reminders.go. What the bot answers is an argument.
--     Reminders/Bits is about the bits of the column, Reminders/Once about any sequence of
--     reminders.
--   Service/Locks: lockPayment and dropPaymentWaiter of internal/service/order.go, as steps of any
--     number of goroutines; Locks/Invariant, Locks/Counting and Locks/Steps hold the invariant,
--     Locks/Safety what follows.
--   Service/World: what a service acts on: the database, how the administrator is reached, and the
--     messages that it hands to the bot of the administrator, to the provider and to the cache. The
--     guard of notifyAdmin, notifyAdminPaid and notifyAdminChargeback decides whether the bot is
--     handed anything; whether it delivers a message is only logged by the source. World/Runs: runs
--     that are operations of the order store.
--   Service/Order: internal/service/order.go. Order/Payload is orderByCallbackPayload,
--     Order/Confirm confirmPayment and mirrorOrderFromSubscriptionAfterCAS, Order/Cancel is
--     CancelPaymentByProvider, Order/Request is requestPayment from the subscription on,
--     Order/Reconcile is reconcilePendingOrder, expireReconciledOrder and persistProviderFee. What
--     the service calls of the synchronization service is the record SyncService; its law,
--     OnlyBindings, is filled by Service/PlanReconcile/Frame for the plan change. The service under
--     the lock of the payment is modelled; the error of lockPayment is a field of OrderService. The
--     answers of the provider (GetTransactionStatus, CreateTransaction), uuid.Parse and time.Parse
--     are parameters. Guards, CancelGuards, Unchanged, Alerts, Once, Activation, Expiry, Fees,
--     Lifecycle and History hold the proofs, as do Cancel/Runs and the child modules of Once and
--     Request.
--   Service/Platega: the amounts of internal/service/payment/platega: ParseCallbackAmount,
--     CommissionCents and the text that CreateTransaction sends. A text is a list of code points;
--     Common/Text has what the source uses of strings, strconv and fmt, and wraps int64 values.
--   Scenarios: concrete runs.
--
-- How the code corresponds. Times are nanoseconds as native numbers, in UTC, so AddDate adds whole
-- days. Amounts are integers. `errors.Is` on a wrapped error is the error it wraps. A method of
-- *Service is a function of the same name in snake case, with the context and the receiver left
-- out. Go's range over a map visits the entries in an order that the language does not fix: it is a
-- parameter, a permutation of the entries. The plan change that a payment runs in its transaction
-- (ApplyPlanInTxFn) is an argument, `none` for nil.
--
-- Every loop runs over a list, but print_digits, which has one unit of fuel for each number up to
-- the printed one, more than its digits.
--
-- Not modelled: the lock of a subscription, which is the algorithm of the lock of a payment (the
-- functions of the services are those that run under these locks), logs and metrics, the JSON
-- columns but the recipients of a broadcast, the texts of audit events and alerts, and the parts
-- that are I/O: the bot and web handlers, the subscription server, the VPN panels, configuration,
-- backups and migrations. How RequestPayment finds or creates the subscription, the loops over
-- pages of orders, the run of pending bindings on the panels, and the audience query of a broadcast
-- are not modelled.
pub mod Common
pub mod Database
pub mod Service
pub mod Scenarios
