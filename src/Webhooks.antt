-- ===== src/Webhooks.antt =====
-- internal/webhooks: events, endpoints, the history of deliveries, and the dispatcher.
pub mod Types
pub mod Events
pub mod Store
pub mod Deliveries
pub mod Dispatch
