-- ===== src/Account.antt =====
-- The account service (src/account): the tables `Account`, `Transaction` and `AccountInbox`, the
-- charge and refund commands, and the gateway that answers RabbitMQ requests.
pub mod Store
pub mod Commands
pub mod Inbox
pub mod Gateway
pub mod Delivery
pub mod Ledger
pub mod Outcomes
pub mod Handlers
pub mod UserEvents
mod Tests
pub mod Branches
