-- ===== src/Identity.antt =====
-- The sessions of the identity service (src/identity): refresh tokens, their rotation, and logout.
pub mod Store
pub mod Commands
pub mod Forms
pub mod Accounts
pub mod Register
pub mod Attempts
pub mod Oidc
pub mod Rows
pub mod Rotation
pub mod Created
pub mod Registered
pub mod Logins
pub mod Linked
pub mod Revoked
pub mod SignedIn
pub mod Spent
pub mod Ended
pub mod Consistent
pub mod Kept
pub mod Requests
pub mod Examples
mod Tests
mod EntryTests
