-- ===== src/Database.antt =====
-- internal/database: the tables and the operations on them.
pub mod Models
pub mod Monad
pub mod Orders
pub mod SubscriptionNodes
pub mod Products
pub mod Broadcasts
pub mod Trials
pub mod Reminders
pub mod Subscriptions
