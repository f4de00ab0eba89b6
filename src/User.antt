-- ===== src/User.antt =====
-- The user service (src/user): a profile for each identity that registers.
pub mod Store
pub mod Create
pub mod Created
pub mod Provisioned
pub mod Relays
pub mod Announced
mod Tests
