-- ===== src/Database/Orders.antt =====
-- internal/database/orders.go: payment intents, the payment transitions and their SQL statements.
pub mod Confirm
pub mod Chargeback
pub mod Intent
pub mod Lifecycle
