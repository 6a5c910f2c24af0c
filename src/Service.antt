-- ===== src/Service.antt =====
-- internal/service: the services over the database.
pub mod World
pub mod PlanReconcile
pub mod Sync
pub mod Platega
pub mod Locks
pub mod Reminders
pub mod Order
