-- ===== src/Database/Orders/Lifecycle.antt =====
-- The life of an order over any sequence of the operations of internal/database/orders.go.
pub mod Evolves
pub mod Steps
pub mod Operations
pub mod Reach
