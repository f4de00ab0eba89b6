-- ===== src/Access.antt =====
-- Who may do what (src/generic/auth): access tokens, their denial, and abilities.
pub mod Tokens
pub mod Abilities
pub mod LoggedOut
pub mod Examples
mod Tests
