-- ===== src/Order.antt =====
-- The order service (src/order): the order tables, the placement of an order, the placement workflow with
-- its activities, the status notifications, and access to an order.
pub mod Store
pub mod Status
pub mod Place
pub mod Placed
pub mod Repeated
pub mod Consistent
pub mod Kept
pub mod Messages
pub mod Accepted
pub mod Workflow
pub mod Activity
pub mod Attempts
pub mod Saga
pub mod Notify
pub mod Listeners
pub mod Recorded
pub mod History
pub mod Stream
pub mod Newer
pub mod Streamed
pub mod Buyers
pub mod Registered
pub mod Reading
pub mod Readers
pub mod Input
pub mod Valid
mod Tests
pub mod Started
mod BuyerTests
mod StartTests
mod HistoryTests
mod ReadTests
mod InputTests
