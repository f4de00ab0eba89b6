-- ===== src/Outbox.antt =====
-- The outboxes of the order service (src/order): the rows and their relays.
pub mod Store
pub mod Relay
pub mod Claimed
pub mod Sent
pub mod Ordered
pub mod Drained
pub mod Heard
pub mod Workflows
mod Tests
