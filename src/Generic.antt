-- ===== src/Generic.antt =====
-- What the services share (src/generic): the limit on requests, and the retry of transactions.
pub mod RateLimit
pub mod Windows
pub mod Limits
pub mod Retry
pub mod Attempts
pub mod Cache
pub mod Consumer
pub mod Secrets
pub mod Handled
mod Tests
mod SecretTests
